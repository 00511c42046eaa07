-- ===== src/Editor/Tests.antt =====
-- Runs of shell/editor.c on the text `ab`, the cursor behind the `a`.
use pumpkin_os.Prelude.{ℕ, ◌+◌, ◌≡◌, arith, false, List, ◌∷◌, length, replicate}
use pumpkin_os.Prelude.{length-replicate}
use pumpkin_os.Keyboard.Key
use pumpkin_os.Editor.{Editor, line_start, cursor_rc}
use pumpkin_os.Editor.Edits.{IsValid}
use pumpkin_os.Editor.Lines.{line_start-cursor_rc}
use pumpkin_os.Editor.Keys.{edit_key, edit_key-IsValid}

abbrev rest : List ℕ
rest = replicate 65534 0

length-rest : length rest ≡ 65534
length-rest = length-replicate {A = ℕ} 65534 0

abbrev ab : Editor
ab = record { buf = b'a' ∷ b'b' ∷ rest; len = 2; cursor = 1; goal_col = 1; modified = false }

ab-IsValid : IsValid ab
ab-IsValid = record { inside = omega arith; fits = omega arith; size = omega (arith, length-rest) }

line_start-cursor_rc_example : line_start (cursor_rc ab).0 ab + (cursor_rc ab).1 ≡ 1
line_start-cursor_rc_example = line_start-cursor_rc ab (omega arith)

edit_key-IsValid_example : IsValid (edit_key Key.down ab)
edit_key-IsValid_example = edit_key-IsValid Key.down ab ab-IsValid
