-- ===== src/Fat/Cwd/Tests.antt =====
-- Runs of fs/fat12.c on the path `/a`.
use pumpkin_os.Prelude.{ℕ, zero, suc, ◌≡◌, refl, arith, List, [], ◌∷◌, ◌++◌, replicate, none, some}
use pumpkin_os.Fat.Cwd.{slash, path_push, path_pop}
use pumpkin_os.Fat.Cwd.Push.{NoZero, Holds, path_push-overflow}
use pumpkin_os.Fat.Cwd.Pop.{path_pop-path_push}

abbrev path : List ℕ
path = slash ∷ b'a' ∷ []

abbrev buffer : List ℕ
buffer = path ++ 0 ∷ replicate 125 7

buffer-Holds : Holds buffer path
buffer-Holds = record {
  after = replicate 125 7;
  chars = (omega arith, (omega arith, tt));
  is = refl;
  size = refl;
}

abbrev bc : List ℕ
bc = b'b' ∷ b'c' ∷ []

path_pop-path_push_example :
    (mid : List ℕ) × (buf' : List ℕ) × (path_push bc buffer ≡ some mid)
    × (path_pop mid ≡ some buf')
    × Holds buf' path
path_pop-path_push_example =
    path_pop-path_push bc buffer (b'a' ∷ []) buffer-Holds (omega arith, (omega arith, tt))
      (omega arith, (omega arith, tt)) (omega arith)

NoZero-replicate : (n : ℕ) → NoZero (replicate n b'x')
NoZero-replicate zero = tt
NoZero-replicate (suc n) = (omega arith, NoZero-replicate n)

abbrev full : List ℕ
full = replicate 127 b'x'

full-Holds : Holds (full ++ 0 ∷ []) full
full-Holds = record { after = []; chars = NoZero-replicate 127; is = refl; size = refl }

path_push-overflow_example : path_push bc (full ++ 0 ∷ []) ≡ none
path_push-overflow_example = path_push-overflow bc (full ++ 0 ∷ []) full full-Holds refl
