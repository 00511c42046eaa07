-- ===== src/Fat/Tree.antt =====
-- Removing and making directories in fs/fat12.c, and changing to one. As in Fat.File the drive's
-- motor and the messages are left out, and `none` is a directory or a chain that does not end, a
-- buffer used that a failed read left unset, or a write outside `cwd_path`.
pub mod Cd
mod Tests
use package.pumpkin_os.Prelude.{
  ℕ, zero, suc, ◌+◌, ◌-◌, ◌*◌, ◌/◌, ◌%◌, ◌^◌, bit_or, bit_and, ◌⊎◌, inl, inr,
}
use package.pumpkin_os.Prelude.{Bool, true, false, ◌&&◌, ◌||◌, not, ltb, leb, ◌==◌, if◌then◌else◌}
use package.pumpkin_os.Prelude.{
  Option, none, some, List, [], ◌∷◌, ◌++◌, length, take, drop, get_or, set, replicate,
}
use package.pumpkin_os.Fat.Table.{Cache, alloc_cluster, free_chain}
use package.pumpkin_os.Fat.Names.{to_83, space}
use package.pumpkin_os.Fat.Cwd.{slash, path_push, path_pop}
use package.pumpkin_os.Fat.Volume.{Disk, Volume, attr_dir, cluster_lba, dir_sector_lba, fat_flush}
use package.pumpkin_os.Rtc.{RtcTime}
use package.pumpkin_os.Fat.Dir.{
  Slot, ent, is_last, is_skipped, Outcome, stopped, ended, unread, make_entry,
}
use package.pumpkin_os.Fat.Dir.{dir_walk, dir_find, dir_add, clear_sectors}
use package.pumpkin_os.Fat.File.{is_dir, first_cluster, drop_chain}

-- `strcmp(a, b) == 0` on strings.
pub same_name : List ℕ → List ℕ → Bool
same_name [] [] = true
same_name [] (d ∷ b) = false
same_name (c ∷ a) [] = false
same_name (c ∷ a) (d ∷ b) = c == d && same_name a b

abbrev pub dot : List ℕ
dot = b'.' ∷ []

abbrev pub dotdot : List ℕ
dotdot = b'.' ∷ b'.' ∷ []

-- The two static arrays of `fs_mkdir`.
abbrev pub dot_83 : List ℕ
dot_83 = b'.' ∷ replicate 10 space

abbrev pub dotdot_83 : List ℕ
dotdot_83 = b'.' ∷ b'.' ∷ replicate 9 space

-- The body of the test in `fs_rmdir`: true for an empty directory, false for an entry.
pub empty_body : Slot → Unit {0} → Bool ⊎ Unit {0}
empty_body s a =
    if is_last s
    then inl true
    else if is_skipped s
    then inr tt
    else if ent s 0 == b'.'
    then inr tt
    else inl false

-- Both a chain that ends and a sector that cannot be read leave the loop for the label `empty`.
abbrev pub counts_empty : Option (Outcome Bool (Unit {0})) → Option Bool
counts_empty none = none
counts_empty (some (stopped b)) = some b
counts_empty (some (ended a)) = some true
counts_empty (some (unread a)) = some true

-- How the removing functions return.
pub data Removed : Type 0 where
  done refused missing : Removed

-- One component of a path: its characters before a slash, and what follows the slashes.
pub skip_slashes : List ℕ → List ℕ
skip_slashes [] = []
skip_slashes (c ∷ p) = let rest = skip_slashes p in if c == slash then rest else c ∷ p

pub component : List ℕ → List ℕ × List ℕ
unfolding skip_slashes
component [] = ([], [])
component (c ∷ p) =
    let (comp, rest) = component p in
    if c == slash then ([], skip_slashes (c ∷ p)) else (c ∷ comp, rest)

module _ {S : Type 0} (dk : Disk S) (fuel : ℕ) where
  -- The end of the removing functions: the first byte of the entry becomes 0xE5.
  pub mark_deleted : Slot → Volume S → Option (Volume S)
  mark_deleted e v = elim (dk.read_sector e.lba v.disk) [
    | none ↦ none
    | some sec ↦ some (record v { disk = (dk.write_sector e.lba (set sec e.off 0xE5) v.disk).1 })
  ]

  -- `free_chain`, `fat_flush`, and the entry marked.
  pub remove_entry : Slot → Volume S → Option (Removed × Volume S)
  unfolding mark_deleted
  remove_entry e v = elim (drop_chain dk fuel (first_cluster e) v) [
    | none ↦ none
    | some v' ↦ elim (mark_deleted e v') [ none ↦ none | some v'' ↦ some (done, v'') ]
  ]

  pub fs_remove : List ℕ → Volume S → Option (Removed × Volume S)
  unfolding remove_entry
  fs_remove name v =
      if not v.mounted
      then some (missing, v)
      else elim (dir_find dk fuel v.cwd_cluster (to_83 name) v) [
        | none ↦ none
        | some none ↦ some (missing, v)
        | some (some e) ↦ if is_dir e then some (refused, v) else remove_entry e v
      ]

  -- Whether `fs_rmdir` takes the directory from `cluster` for empty.
  pub is_empty_dir : ℕ → Volume S → Option Bool
  unfolding empty_body
  is_empty_dir cluster v =
      counts_empty (dir_walk empty_body dk v.disk (λ _. dir_sector_lba v cluster) fuel 0 tt)

  pub fs_rmdir : List ℕ → Volume S → Option (Removed × Volume S)
  unfolding is_empty_dir remove_entry
  fs_rmdir name v =
      if not v.mounted
      then some (missing, v)
      else if same_name name dot || same_name name dotdot
      then some (refused, v)
      else elim (dir_find dk fuel v.cwd_cluster (to_83 name) v) [
        | none ↦ none
        | some none ↦ some (missing, v)
        | some (some e) ↦
            if not (is_dir e) then some (refused, v) else elim (is_empty_dir (first_cluster e) v) [
              | none ↦ none
              | some false ↦ some (refused, v)
              | some true ↦ remove_entry e v
            ]
      ]

  -- The body of `rmrf_cluster`, where `inner` is the call for a subdirectory, on the table.
  pub rmrf_body : (ℕ → Cache → Option Cache) → Slot → Cache → Option Cache ⊎ Cache
  rmrf_body inner s fat =
      let c = first_cluster s in
      let below = if is_dir s then inner c fat else some fat in
      if is_last s
      then inl (some fat)
      else if is_skipped s
      then inr fat
      else if ent s 0 == b'.'
      then inr fat
      else elim below [
        | none ↦ inl none
        | some fat' ↦ elim (free_chain fuel c fat') [ none ↦ inl none | some fat'' ↦ inr fat'' ]
      ]

  -- `rmrf_cluster` with `levels` left before the guard on the depth: 33 at the top.
  pub rmrf_cluster : ℕ → ℕ → Volume S → Cache → Option Cache
  unfolding rmrf_body
  rmrf_cluster zero cluster v fat = some fat
  rmrf_cluster (suc levels) cluster v fat =
      elim (dir_walk (rmrf_body (λ c f. rmrf_cluster levels c v f)) dk v.disk
        (λ f. dir_sector_lba (record v { fat_cache = f }) cluster) fuel 0 fat) [
          | none ↦ none
          | some (stopped r) ↦ r
          | some (ended f) ↦ some f
          | some (unread f) ↦ some f
        ]

  pub fs_rmrf : List ℕ → Volume S → Option (Removed × Volume S)
  unfolding rmrf_cluster remove_entry
  fs_rmrf name v =
      if not v.mounted
      then some (missing, v)
      else if same_name name dot || same_name name dotdot
      then some (refused, v)
      else elim (dir_find dk fuel v.cwd_cluster (to_83 name) v) [
        | none ↦ none
        | some none ↦ some (missing, v)
        | some (some e) ↦
            elim (if is_dir e
              then rmrf_cluster 33 (first_cluster e) v v.fat_cache
              else some v.fat_cache) [
                | none ↦ none
                | some fat ↦ remove_entry e (record v { fat_cache = fat })
              ]
      ]

  -- True for the result 0. `t` is the time for the two entries of the new directory, `t'` for its own.
  pub fs_mkdir : RtcTime → RtcTime → List ℕ → Volume S → Option (Bool × Volume S)
  fs_mkdir t t' name v =
      let (nc, fat) = alloc_cluster v.cluster_count v.fat_cache in
      let lba = cluster_lba v nc in
      let block =
        make_entry t dot_83 attr_dir nc 0
        ++ make_entry t dotdot_83 attr_dir v.cwd_cluster 0
        ++ replicate 448 0 in
      let s = (dk.write_sector lba block v.disk).1 in
      let cleared = clear_sectors dk fuel (v.sectors_per_cluster - 1) (lba + 1) s in
      let v' = fat_flush dk (record v { fat_cache = fat; disk = cleared }) in
      let entry = make_entry t' (to_83 name) attr_dir nc 0 in
      if not v.mounted
      then some (false, v)
      else elim (dir_find dk fuel v.cwd_cluster (to_83 name) v) [
        | none ↦ none
        | some (some e) ↦ some (false, v)
        | some none ↦
            if nc == 0 then some (false, v) else elim (dir_add dk fuel v.cwd_cluster entry v') [
              | none ↦ none
              | some (true, v'') ↦ some (true, v'')
              | some (false, v'') ↦ elim (drop_chain dk fuel nc v'') [
                | none ↦ none
                | some w ↦ some (false, w)
              ]
            ]
      ]

  -- `cd_one` with the entry that it finds, where `up` says that the component is "..", and `edit` is
  -- the new `cwd_path`.
  pub cd_to : Bool → Option (List ℕ) → Volume S → Option (Option Slot) → Option (Bool × Volume S)
  cd_to up edit v none = none
  cd_to up edit v (some none) = some (false, v)
  cd_to up none v (some (some e)) = if not up && not (is_dir e) then some (false, v) else none
  cd_to up (some path) v (some (some e)) =
      if not up && not (is_dir e)
      then some (false, v)
      else some (true, record v { cwd_cluster = first_cluster e; cwd_path = path })

  -- True for the result 0.
  pub cd_one : List ℕ → Volume S → Option (Bool × Volume S)
  unfolding same_name cd_to
  cd_one comp v =
      let up = same_name comp dotdot in
      let name83 = if up then dotdot_83 else to_83 comp in
      let edit = if up then path_pop v.cwd_path else path_push comp v.cwd_path in
      if same_name comp [] || same_name comp dot
      then some (true, v)
      else if up && v.cwd_cluster == 0
      then some (true, v)
      else cd_to up edit v (dir_find dk fuel v.cwd_cluster name83 v)

  -- The loop of `fs_cd` over the rest of the path; a name is cut to 12 characters. `rounds` is fuel: a
  -- round takes a character at least.
  pub cd_loop : ℕ → List ℕ → Volume S → Option (Bool × Volume S)
  unfolding cd_one component
  cd_loop zero path v = none
  cd_loop (suc rounds) path v =
      let (comp, rest) = component path in
      let next = λ (v' : Volume S). cd_loop rounds rest v' in
      if length path == 0
      then some (true, v)
      else if length comp == 0
      then next v
      else elim (cd_one (take 12 comp) v) [
        | none ↦ none
        | some (false, v') ↦ some (false, v')
        | some (true, v') ↦ next v'
      ]

  -- `cwd_path[0] = '/'; cwd_path[1] = '\0';`
  pub at_root : Volume S → Volume S
  at_root v = record v { cwd_cluster = 0; cwd_path = set (set v.cwd_path 0 slash) 1 0 }

  -- True for the result 0; a path that fails leaves the directory as it was.
  pub fs_cd : List ℕ → Volume S → Option (Bool × Volume S)
  unfolding cd_loop at_root skip_slashes
  fs_cd path v =
      let absolute = get_or path 0 0 == slash in
      let start = if absolute then at_root v else v in
      let rest = if absolute then skip_slashes path else path in
      if not v.mounted
      then some (false, v)
      else if length path == 0
      then some (true, v)
      else elim (cd_loop (suc (length rest)) rest start) [
        | none ↦ none
        | some (true, v') ↦ some (true, v')
        | some (false, v') ↦
            some (false, record v' { cwd_cluster = v.cwd_cluster; cwd_path = v.cwd_path })
      ]
