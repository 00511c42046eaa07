-- ===== src/Fat/Walks/Readdir.antt =====
-- What `fs_readdir` of fs/fat12.c fills in.
use pumpkin_os.Prelude.{ℕ, ◌≤◌, ◌<◌, ◌≡◌, refl, arith, ap, inl, inr, ◌==◌, ◌||◌, not, Bool-cases}
use pumpkin_os.Prelude.{Option, none, some, List, [], ◌∷◌, length, length-append, subst}
use pumpkin_os.Fat.Volume.{Disk, Volume, dir_sector_lba}
use pumpkin_os.Fat.Dir.{Slot, Outcome, stopped, ended, unread, dir_walk}
use pumpkin_os.Fat.Dir.Ends.{IsDirectory, dir_walk-Ends, dir_sector_lba-IsDirectory}
use pumpkin_os.Fat.Dir.Walk.{Either, Keeps, dir_walk-Keeps}
use pumpkin_os.Fat.Walks.{Dirent, dirent, readdir_body, collected, fs_readdir}

abbrev Fits : ℕ → List Dirent → Type 0
Fits max out = length out ≤ max

readdir_body-Either :
    (max : ℕ) (slot : Slot) (out : List Dirent)
    → Fits max out
    → Either (Fits max) (Fits max) (readdir_body max slot out)
unfolding readdir_body
readdir_body-Either max slot out h =
    let more = length-append out (dirent slot ∷ []) in ground (arith, more)

Fits-collected :
    (max : ℕ) (r : Option (Outcome (List Dirent) (List Dirent))) (out : List Dirent)
    → Keeps (Fits max) (Fits max) r
    → collected r ≡ some out
    → length out ≤ max
Fits-collected max none out k e = absurd (ground arith)
Fits-collected max (some (stopped a)) out k e = let same : a ≡ out = cc in subst (Fits max) same k
Fits-collected max (some (ended a)) out k e = let same : a ≡ out = cc in subst (Fits max) same k
Fits-collected max (some (unread a)) out k e = let same : a ≡ out = cc in subst (Fits max) same k

module _ {S : Type 0} (dk : Disk S) where
  fs_readdir-le :
      (fuel cluster max : ℕ) (v : Volume S) (out : List Dirent)
      → fs_readdir dk fuel cluster max v ≡ some out
      → length out ≤ max
  unfolding fs_readdir
  fs_readdir-le fuel cluster max v out e = elim (Bool-cases (not v.mounted || max == 0)) [
    | inl none_asked ↦ let same : [] ≡ out = ground arith in omega (arith, ap length same)
    | inr asked ↦
        Fits-collected max _ out
          (dir_walk-Keeps (Fits max) (Fits max) dk v.disk (readdir_body max)
            (λ slot a on p. readdir_body-Either max slot a p) (λ x. dir_sector_lba v cluster) fuel 0
            [] (omega arith))
          (rw asked at e)
  ]

  collected-Ends :
      (o : Option (Outcome (List Dirent) (List Dirent)))
      → ((r : Outcome (List Dirent) (List Dirent)) × (o ≡ some r))
      → (out : List Dirent) × (collected o ≡ some out)
  collected-Ends o (stopped a, e) = (a, rw e refl)
  collected-Ends o (ended a, e) = (a, rw e refl)
  collected-Ends o (unread a, e) = (a, rw e refl)

  fs_readdir-Ends :
      (fuel cluster max n : ℕ) (v : Volume S)
      → IsDirectory v cluster n
      → n < fuel
      → (out : List Dirent) × (fs_readdir dk fuel cluster max v ≡ some out)
  unfolding fs_readdir
  fs_readdir-Ends fuel cluster max n v d lt = elim (Bool-cases (not v.mounted || max == 0)) [
    | inl none_asked ↦ ([], rw none_asked refl)
    | inr asked ↦ rw asked (
        collected-Ends
          (dir_walk (readdir_body max) dk v.disk (λ _. dir_sector_lba v cluster) fuel 0 [])
          (dir_walk-Ends (readdir_body max) dk v.disk (λ _. dir_sector_lba v cluster) n fuel 0 []
            (λ _. dir_sector_lba-IsDirectory v cluster n d) (omega arith) (omega arith)))
  ]

  -- For the root region or for a chain of clusters, with more fuel than the directory has sectors,
  -- `fs_readdir` returns, and it fills in no more entries than the buffer has room for.
  fs_readdir-Fits :
      (fuel cluster max n : ℕ) (v : Volume S)
      → IsDirectory v cluster n
      → n < fuel
      → (out : List Dirent) × (fs_readdir dk fuel cluster max v ≡ some out) × (length out ≤ max)
  fs_readdir-Fits fuel cluster max n v d lt =
      let r = fs_readdir-Ends fuel cluster max n v d lt in
      (r.0, r.1, fs_readdir-le fuel cluster max v r.0 r.1)
