-- ===== src/Fat/Path/Restore.antt =====
-- `fs_read_path` of fs/fat12.c puts the current directory back.
use pumpkin_os.Prelude.{
  ℕ, ◌≡◌, refl, ap, if◌then◌else◌, Bool, true, false, not, Option, none, some, List,
}
use pumpkin_os.Fat.Volume.{Disk, Volume}
use pumpkin_os.Fat.File.{fs_read}
use pumpkin_os.Fat.Tree.{fs_cd}
use pumpkin_os.Fat.Tree.Cd.{with_cwd, SameButCwd, Moves, fs_cd-Moves}
use pumpkin_os.Fat.Path.{split_last, dir_name, put_back, read_in, fs_read_path}

module _ {S : Type 0} where
  -- The volume that a call leaves.
  abbrev pub Leaves : Volume S → Option (Option (List ℕ) × Volume S) → Type 0
  Leaves v none = Unit
  Leaves v (some (r, w)) = w ≡ v

  put_back-Leaves :
      (v w : Volume S) (r : Option (Option (List ℕ))) → SameButCwd v w → Leaves v (put_back v w r)
  put_back-Leaves v w none e = tt
  put_back-Leaves v w (some r) e = ap (λ (x : Volume S). with_cwd x v) e

  choose_Leaves :
      (b : Bool) (v : Volume S) (x y : Option (Option (List ℕ) × Volume S))
      → Leaves v x
      → Leaves v y
      → Leaves v (if b then x else y)
  choose_Leaves true v x y p q = p
  choose_Leaves false v x y p q = q

  module _ (dk : Disk S) (fuel : ℕ) where
    read_in-Leaves :
        (file : List ℕ) (maxlen : ℕ) (v : Volume S) (o : Option (Bool × Volume S))
        → Moves dk fuel v o
        → Leaves v (read_in dk fuel file maxlen v o)
    unfolding read_in
    read_in-Leaves file maxlen v none m = tt
    read_in-Leaves file maxlen v (some (true, w)) m =
        put_back-Leaves v w (fs_read dk fuel file maxlen w) m
    read_in-Leaves file maxlen v (some (false, w)) m = ap (λ (x : Volume S). with_cwd x v) m

    at_Leaves :
        (path : List ℕ) (maxlen : ℕ) (v : Volume S) (o : Option (List ℕ × List ℕ))
        → Leaves v (elim o [
          | none ↦ put_back v v (fs_read dk fuel path maxlen v)
          | some (d, file) ↦ read_in dk fuel file maxlen v (fs_cd dk fuel (dir_name d) v)
        ])
    at_Leaves path maxlen v none = put_back-Leaves v v (fs_read dk fuel path maxlen v) refl
    at_Leaves path maxlen v (some (d, file)) =
        read_in-Leaves file maxlen v (fs_cd dk fuel (dir_name d) v)
          (fs_cd-Moves dk fuel (dir_name d) v)

    -- Where `fs_read_path` has a result, with or without a directory and a file found, it leaves the
    -- volume as it was: the current directory, its path, the table and the disk.
    pub fs_read_path-Leaves :
        (path : List ℕ) (maxlen : ℕ) (v : Volume S) → Leaves v (fs_read_path dk fuel path maxlen v)
    unfolding fs_read_path
    fs_read_path-Leaves path maxlen v =
        choose_Leaves (not v.mounted) v (some (none, v)) _ refl
          (at_Leaves path maxlen v (split_last path))
