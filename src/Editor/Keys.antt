-- ===== src/Editor/Keys.antt =====
-- The keys of shell/editor.c, the `switch` of `editor_run` but for Esc, which asks and leaves.
use pumpkin_os.Prelude.{ℕ, zero, suc, ◌+◌, ◌-◌, ◌≤◌, Bool, true, false, arith, ◌∙◌, sym, subst}
use pumpkin_os.Prelude.{◌&&◌, ltb, leb, ◌==◌, if◌then◌else◌, dec_lt, lt→ltb, le→ltb}
use pumpkin_os.Keyboard.Key
use pumpkin_os.Editor.{
  edit_max, newline, Editor, line_start, line_len, cursor_rc, insert_ch, backspace, delete_ch,
  goto_line,
}
use pumpkin_os.Editor.Edits.{
  IsValid, insert_ch_lem, backspace_lem, delete_ch_lem, insert_ch-full, backspace-start,
  delete_ch-end,
}
use pumpkin_os.Editor.Lines.{
  goto_line-le, goto_line-len, goto_line-size, line_start-le, line_len-le,
}

abbrev pub text_rows : ℕ
text_rows = 23

-- `cursor_rc(&cl, &cc); goal_col = cc;`
pub set_goal : Editor → Editor
set_goal s = record s { goal_col = (cursor_rc s).1 }

pub insert_spaces : ℕ → Editor → Editor
insert_spaces zero s = s
insert_spaces (suc n) s = insert_spaces n (insert_ch b' ' s)

pub edit_key : ℕ → Editor → Editor
unfolding set_goal insert_spaces
edit_key c s =
    let line = (cursor_rc s).0 in
    if c == Key.left
    then set_goal (record s { cursor = s.cursor - 1 })
    else if c == Key.right
    then set_goal (if ltb s.cursor s.len then record s { cursor = s.cursor + 1 } else s)
    else if c == Key.up
    then goto_line (line - 1) s
    else if c == Key.down
    then goto_line (line + 1) s
    else if c == Key.home
    then record s { cursor = line_start line s; goal_col = 0 }
    else if c == Key.end
    then set_goal (record s { cursor = line_start line s + line_len line s })
    else if c == Key.pgup
    then goto_line (line - text_rows) s
    else if c == Key.pgdn
    then goto_line (line + text_rows) s
    else if c == Key.del
    then delete_ch s
    else if c == newline
    then set_goal (insert_ch newline s)
    else if c == 8
    then set_goal (backspace s)
    else if c == 9
    then set_goal (insert_spaces 4 s)
    else if leb b' ' c && ltb c 127
    then set_goal (insert_ch c s)
    else s

either : (b : Bool) {x y : Editor} → IsValid x → IsValid y → IsValid (if b then x else y)
either true p q = p
either false p q = q

moved :
    (s : Editor) (k g : ℕ) → IsValid s → k ≤ s.len → IsValid (record s { cursor = k; goal_col = g })
moved s k g v h = record { inside = h; fits = v.fits; size = v.size }

set_goal-IsValid : (s : Editor) → IsValid s → IsValid (set_goal s)
unfolding set_goal
set_goal-IsValid s v = moved s s.cursor (cursor_rc s).1 v v.inside

insert_ch-IsValid : (c : ℕ) (s : Editor) → IsValid s → IsValid (insert_ch c s)
insert_ch-IsValid c s v = elim (dec_lt s.len (edit_max - 1)) [
  | yes room ↦ (insert_ch_lem c s v room).0
  | no full ↦ subst IsValid (sym (insert_ch-full c s (omega arith))) v
]

insert_spaces-IsValid : (n : ℕ) (s : Editor) → IsValid s → IsValid (insert_spaces n s)
unfolding insert_spaces
insert_spaces-IsValid zero s v = v
insert_spaces-IsValid (suc n) s v =
    insert_spaces-IsValid n (insert_ch b' ' s) (insert_ch-IsValid b' ' s v)

backspace-IsValid : (s : Editor) → IsValid s → IsValid (backspace s)
backspace-IsValid s v = elim (dec_lt 0 s.cursor) [
  | yes some_before ↦ (backspace_lem s v some_before).0
  | no start ↦ subst IsValid (sym (backspace-start s (omega arith))) v
]

delete_ch-IsValid : (s : Editor) → IsValid s → IsValid (delete_ch s)
delete_ch-IsValid s v = elim (dec_lt s.cursor s.len) [
  | yes some_after ↦ (delete_ch_lem s v some_after).0
  | no end ↦ subst IsValid (sym (delete_ch-end s (omega arith))) v
]

goto_line-IsValid : (line : ℕ) (s : Editor) → IsValid s → IsValid (goto_line line s)
goto_line-IsValid line s v = record {
  inside = goto_line-le line s;
  fits = subst (λ n. n ≤ edit_max) (sym (goto_line-len line s)) v.fits;
  size = goto_line-size line s ∙ v.size;
}

right :
    (s : Editor)
    → IsValid s
    → IsValid (if ltb s.cursor s.len then record s { cursor = s.cursor + 1 } else s)
right s v = elim (dec_lt s.cursor s.len) [
  | yes h ↦ rw (lt→ltb _ _ h) (moved s (s.cursor + 1) s.goal_col v (omega arith))
  | no h ↦ rw (le→ltb s.cursor s.len (omega arith)) v
]

typing :
    (c : ℕ) (s : Editor)
    → IsValid s
    → IsValid (
        if c == Key.del
        then delete_ch s
        else if c == newline
        then set_goal (insert_ch newline s)
        else if c == 8
        then set_goal (backspace s)
        else if c == 9
        then set_goal (insert_spaces 4 s)
        else if leb b' ' c && ltb c 127
        then set_goal (insert_ch c s)
        else s)
typing c s v = either (c == Key.del) (delete_ch-IsValid s v) (
    either (c == newline) (set_goal-IsValid _ (insert_ch-IsValid newline s v)) (
      either (c == 8) (set_goal-IsValid _ (backspace-IsValid s v)) (
        either (c == 9) (set_goal-IsValid _ (insert_spaces-IsValid 4 s v))
          (either (leb b' ' c && ltb c 127) (set_goal-IsValid _ (insert_ch-IsValid c s v)) v))))

-- Every key but Esc keeps a valid state valid: the cursor stays inside the text, and the text
-- inside the buffer.
pub edit_key-IsValid : (c : ℕ) (s : Editor) → IsValid s → IsValid (edit_key c s)
unfolding edit_key
edit_key-IsValid c s v =
    let line = (cursor_rc s).0 in
    let at : (k : ℕ) → k ≤ s.len → IsValid (record s { cursor = k }) =
      λ k h. moved s k s.goal_col v h in
    either (c == Key.left) (set_goal-IsValid _ (at (s.cursor - 1) (omega (arith, v.inside)))) (
      either (c == Key.right) (set_goal-IsValid _ (right s v)) (
        either (c == Key.up) (goto_line-IsValid _ s v) (
          either (c == Key.down) (goto_line-IsValid _ s v) (
            either (c == Key.home) (moved s _ 0 v (line_start-le line s)) (
              either (c == Key.end) (set_goal-IsValid _ (at _ (line_len-le line s))) (
                either (c == Key.pgup) (goto_line-IsValid _ s v)
                  (either (c == Key.pgdn) (goto_line-IsValid _ s v) (typing c s v))))))))
