-- ===== src/Fat/Names/Tests.antt =====
-- Runs of fs/fat12.c on the name `ab.txt` and `ab`.
use pumpkin_os.Prelude.{List, [], ◌∷◌, ℕ}

abbrev ab : List ℕ
ab = b'a' ∷ b'b' ∷ []

abbrev txt : List ℕ
txt = b't' ∷ b'x' ∷ b't' ∷ []
