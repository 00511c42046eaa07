-- ===== src/CString/Tests.antt =====
-- Runs of lib/string.c on six bytes, with overlapping blocks.
use pumpkin_os.Prelude.{ℕ, ◌≡◌, refl, arith, List, [], ◌∷◌, get_or}
use pumpkin_os.CString.{memset, memcpy, copy_back, memmove}
use pumpkin_os.CString.Blocks.{copied, memmove_lem}

abbrev bytes : List ℕ
bytes = 1 ∷ 2 ∷ 3 ∷ 4 ∷ 5 ∷ 6 ∷ []

moved_up : memmove bytes 2 0 4 ≡ 1 ∷ 2 ∷ 1 ∷ 2 ∷ 3 ∷ 4 ∷ []
unfolding memmove memcpy copy_back
moved_up = refl

cleared : memset bytes 1 256 2 ≡ 1 ∷ 0 ∷ 0 ∷ 4 ∷ 5 ∷ 6 ∷ []
unfolding memset
cleared = refl

memmove_lem_example : get_or (memmove bytes 2 0 4) 3 0 ≡ copied bytes 2 0 4 3
memmove_lem_example = memmove_lem bytes 2 0 4 3 (omega arith)

-- "ab" at 0, "ac" at 3.
abbrev texts : List ℕ
texts = b'a' ∷ b'b' ∷ 0 ∷ b'a' ∷ b'c' ∷ 0 ∷ []
