-- ===== src/Fat/Walks.antt =====
-- Mounting, listing and completion in fs/fat12.c.
pub mod Readdir
mod Tests
use package.pumpkin_os.Prelude.{
  ℕ, zero, suc, ◌+◌, ◌-◌, ◌*◌, ◌/◌, ◌%◌, ◌^◌, bit_or, bit_and, ◌⊎◌, inl, inr,
}
use package.pumpkin_os.Prelude.{Bool, true, false, ◌&&◌, ◌||◌, not, ltb, leb, ◌==◌, if◌then◌else◌}
use package.pumpkin_os.Prelude.{
  Option, none, some, List, [], ◌∷◌, ◌++◌, length, take, drop, get_or, set, replicate,
}
use package.pumpkin_os.Fat.Table.{Cache}
use package.pumpkin_os.Fat.Names.{upper, format_name}
use package.pumpkin_os.Fat.Cwd.{slash}
use package.pumpkin_os.Fat.Volume.{Disk, Volume, attr_volume, word_at, dir_sector_lba, read_fs}
use package.pumpkin_os.Fat.Dir.{
  Slot, ent, entry_bytes, is_last, is_skipped, Outcome, stopped, ended, unread, dir_walk,
}
use package.pumpkin_os.Fat.File.{is_dir, first_cluster, file_size}

-- The volume's label, which listings pass over too.
abbrev pub is_hidden : Slot → Bool
is_hidden s = is_skipped s || not (bit_and (ent s 11) attr_volume == 0)

-- The result of a walk that only collects.
abbrev pub collected : {A : Type 0} → Option (Outcome A A) → Option A
collected none = none
collected (some (stopped a)) = some a
collected (some (ended a)) = some a
collected (some (unread a)) = some a

-- `struct fs_dirent`.
pub record Dirent : Type 0 where
  pub name : List ℕ
  pub is_directory : Bool
  pub size : ℕ
  pub cluster : ℕ

abbrev pub dirent : Slot → Dirent
dirent s = record {
  name = format_name (entry_bytes s);
  is_directory = is_dir s;
  size = file_size s;
  cluster = first_cluster s;
}

-- The body of `fs_readdir` with the entries so far; both loops stop when `max` are there.
pub readdir_body : ℕ → Slot → List Dirent → List Dirent ⊎ List Dirent
readdir_body max s out =
    if leb max (length out)
    then inl out
    else if is_last s
    then inl out
    else if is_hidden s
    then inr out
    else if ent s 0 == b'.'
    then inr out
    else inr (out ++ dirent s ∷ [])

-- The body that counts the files in `fs_init`.
pub count_body : Slot → ℕ → ℕ ⊎ ℕ
count_body s files =
    if is_last s then inl files else if is_hidden s then inr files else inr (files + 1)

-- `name[i]` against the prefix, character by character.
pub has_prefix : List ℕ → List ℕ → Bool
has_prefix [] name = true
has_prefix (u ∷ up) [] = false
has_prefix (u ∷ up) (c ∷ name) = upper c == u && has_prefix up name

-- `while (out[i] && name[i] && upper(out[i]) == upper(name[i])) i++; out[i] = '\0';`
pub common : List ℕ → List ℕ → List ℕ
common [] name = []
common (c ∷ out) [] = []
common (c ∷ out) (d ∷ name) = if upper c == upper d then c ∷ common out name else []

pub upper_all : List ℕ → List ℕ
upper_all [] = []
upper_all (c ∷ q) = upper c ∷ upper_all q

-- The body of `fs_complete` with the matches and the completion so far.
pub complete_body : List ℕ → ℕ → Slot → ℕ × List ℕ → (ℕ × List ℕ) ⊎ (ℕ × List ℕ)
unfolding has_prefix common
complete_body up outsize s (matches, out) =
    let name = format_name (entry_bytes s) in
    if is_last s
    then inl (matches, out)
    else if is_hidden s
    then inr (matches, out)
    else if ent s 0 == b'.'
    then inr (matches, out)
    else if not (has_prefix up name)
    then inr (matches, out)
    else if matches == 0
    then inr (1, take (outsize - 1) name)
    else inr (matches + 1, common out name)

-- The geometry that `fs_init` reads from the boot sector and accepts, with no table yet. The count
-- of clusters is a 32-bit difference.
pub mount_geometry : {S : Type 0} → List ℕ → S → Option (Volume S)
mount_geometry bpb disk =
    let spc = get_or bpb 13 0 in
    let reserved = word_at bpb 14 in
    let fats = get_or bpb 16 0 in
    let per_fat = word_at bpb 22 in
    let root = reserved + fats * per_fat in
    let root_size = (word_at bpb 17 * 32 + 511) / 512 in
    let first_data = root + root_size in
    if not (word_at bpb 11 == 512) || spc == 0 || fats == 0 || ltb 2 fats
    then none
    else some (record {
      sectors_per_cluster = spc;
      reserved_sectors = reserved;
      num_fats = fats;
      sectors_per_fat = per_fat;
      root_start = root;
      root_sectors = root_size;
      data_start = first_data;
      cluster_count = (word_at bpb 19 + 2 ^ 32 - first_data) % 2 ^ 32 / spc;
      fat_cache = [];
      mounted = false;
      cwd_cluster = 0;
      cwd_path = replicate 128 0;
      disk = disk;
    })

module _ {S : Type 0} (dk : Disk S) (fuel : ℕ) where
  -- `fs_readdir` for a buffer of `max` entries.
  pub fs_readdir : ℕ → ℕ → Volume S → Option (List Dirent)
  unfolding readdir_body
  fs_readdir cluster max v =
      if not v.mounted || max == 0
      then some []
      else collected
          (dir_walk (readdir_body max) dk v.disk (λ _. dir_sector_lba v cluster) fuel 0 [])

  -- The number of matches, and the completion.
  pub fs_complete : List ℕ → ℕ → Volume S → Option (ℕ × List ℕ)
  unfolding complete_body upper_all
  fs_complete prefix outsize v = collected (
      dir_walk (complete_body (upper_all (take 12 prefix)) outsize) dk v.disk
        (λ _. dir_sector_lba v v.cwd_cluster) fuel 0 (0, []))

  -- `fs_init`: the volume and the number of files; the inner `none` is the result -1. `fits` says
  -- whether `kmalloc` of a size succeeds.
  pub fs_init : (ℕ → Bool) → S → Option (Option (Volume S × ℕ))
  unfolding mount_geometry count_body
  fs_init fits s = elim (dk.read_sector 0 s) [
    | none ↦ some none
    | some bpb ↦ elim (mount_geometry bpb s) [
      | none ↦ some none
      | some v ↦ elim (read_fs dk v.reserved_sectors v.sectors_per_fat s) [
        | none ↦ some none
        | some fat ↦
            let ready = record v {
              fat_cache = fat;
              mounted = true;
              cwd_path = set (set v.cwd_path 0 slash) 1 0;
            } in
            if not (fits (v.sectors_per_fat * 512))
            then some none
            else elim (collected
                (dir_walk count_body dk s (λ _. dir_sector_lba ready 0) fuel 0 0)) [
                  | none ↦ none
                  | some files ↦ some (some (ready, files))
                ]
      ]
    ]
  ]
