-- ===== src/Fat/Path.antt =====
-- `fs_read_path` of fs/fat12.c: a file by its path. As in Fat.Tree, `none` is a directory or a chain
-- that does not end, or a write outside `cwd_path`.
pub mod Restore
mod Tests
use package.pumpkin_os.Prelude.{ℕ, ◌==◌, if◌then◌else◌, Bool, true, false, not, Option, none, some}
use package.pumpkin_os.Prelude.{List, [], ◌∷◌, length, take}
use package.pumpkin_os.Fat.Cwd.{slash}
use package.pumpkin_os.Fat.Volume.{Disk, Volume}
use package.pumpkin_os.Fat.File.{fs_read}
use package.pumpkin_os.Fat.Tree.{fs_cd}

-- What stands before the last slash, and what stands behind it.
pub split_last : List ℕ → Option (List ℕ × List ℕ)
split_last [] = none
split_last (c ∷ p) =
    let rest = split_last p in
    elim rest [ some (d, f) ↦ some (c ∷ d, f) | none ↦ if c == slash then some ([], p) else none ]

-- `dir`: the root for an empty name, and 126 characters at most.
pub dir_name : List ℕ → List ℕ
dir_name d = if length d == 0 then slash ∷ [] else take 126 d

-- The result, with the directory of `v` put back.
abbrev pub put_back :
    {S : Type 0}
    → Volume S
    → Volume S
    → Option (Option (List ℕ))
    → Option (Option (List ℕ) × Volume S)
put_back v w none = none
put_back v w (some r) = some (r, record w { cwd_cluster = v.cwd_cluster; cwd_path = v.cwd_path })

module _ {S : Type 0} (dk : Disk S) (fuel : ℕ) where
  -- The read after `fs_cd`, which has come to `w`.
  pub read_in :
      List ℕ → ℕ → Volume S → Option (Bool × Volume S) → Option (Option (List ℕ) × Volume S)
  read_in file maxlen v none = none
  read_in file maxlen v (some (true, w)) = put_back v w (fs_read dk fuel file maxlen w)
  read_in file maxlen v (some (false, w)) = put_back v w (some none)

  -- The inner `none` is the result -1.
  pub fs_read_path : List ℕ → ℕ → Volume S → Option (Option (List ℕ) × Volume S)
  unfolding split_last dir_name read_in
  fs_read_path path maxlen v = if not v.mounted then some (none, v) else elim (split_last path) [
    | none ↦ put_back v v (fs_read dk fuel path maxlen v)
    | some (d, file) ↦ read_in file maxlen v (fs_cd dk fuel (dir_name d) v)
  ]
