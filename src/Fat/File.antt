-- ===== src/Fat/File.antt =====
-- The files of fs/fat12.c. The motor of the drive and the messages on the console are left out.
-- `none` is a directory or a chain that does not end, or a buffer used that a failed read left unset.
pub mod Stored
pub mod Sectors
pub mod Round
pub mod Write
mod Tests
use package.pumpkin_os.Prelude.{
  ℕ, zero, suc, ◌+◌, ◌-◌, ◌*◌, ◌/◌, ◌%◌, ◌^◌, bit_or, bit_and, ◌⊎◌, inl, inr, min,
}
use package.pumpkin_os.Prelude.{Bool, true, false, ◌&&◌, ◌||◌, not, ltb, leb, ◌==◌, if◌then◌else◌}
use package.pumpkin_os.Prelude.{
  Option, none, some, List, [], ◌∷◌, ◌++◌, length, take, drop, get_or, set, replicate,
}
use package.pumpkin_os.Fat.Table.{Cache, eoc, fat_get, fat_put, alloc_cluster, free_chain}
use package.pumpkin_os.Fat.Names.{to_83}
use package.pumpkin_os.Fat.Volume.{
  Disk, Volume, attr_dir, attr_file, word_at, cluster_lba, fat_flush,
}
use package.pumpkin_os.Rtc.{RtcTime}
use package.pumpkin_os.Fat.Dir.{Slot, ent, copy_over, make_entry, dir_find, dir_add}

-- `(ent[11] & ATTR_DIR)` as a test.
abbrev pub is_dir : Slot → Bool
is_dir s = not (bit_and (ent s 11) attr_dir == 0)

abbrev pub first_cluster : Slot → ℕ
first_cluster s = bit_or (ent s 26) (ent s 27 * 2 ^ 8) % 2 ^ 16

abbrev pub file_size : Slot → ℕ
file_size s =
    bit_or (bit_or (bit_or (ent s 28) (ent s 29 * 2 ^ 8)) (ent s 30 * 2 ^ 16)) (ent s 31 * 2 ^ 24)

-- The `n` bytes that one sector gives.
abbrev pub part : ℕ → ℕ
part remaining = if ltb remaining 512 then remaining else 512

-- How the loop of `fs_create` ends: the chain it wrote, from its first cluster (0 for no data).
pub data Written : Type 0 where
  chain : ℕ → Written
  disk_full : ℕ → Written

module _ {S : Type 0} (dk : Disk S) where
  -- The inner loop of `fs_read`, with `n` sectors to go from `lba`: the bytes, `none` for -1.
  pub read_sectors : ℕ → ℕ → ℕ → S → Option (List ℕ)
  read_sectors zero lba remaining s = some []
  read_sectors (suc n) lba remaining s =
      let rest = read_sectors n (lba + 1) (remaining - part remaining) s in
      if remaining == 0 then some [] else elim (dk.read_sector lba s) [
        | none ↦ none
        | some sec ↦ elim rest [
          | none ↦ none
          | some more ↦ some (take (part remaining) sec ++ more)
        ]
      ]

  -- The outer loop of `fs_read`, where `guard` rounds are left.
  pub read_clusters : ℕ → ℕ → ℕ → Volume S → Option (List ℕ)
  unfolding read_sectors
  read_clusters zero cluster remaining v = some []
  read_clusters (suc guard) cluster remaining v =
      let left = remaining - v.sectors_per_cluster * 512 in
      let rest = read_clusters guard (fat_get cluster v.fat_cache) left v in
      if not (leb 2 cluster && ltb cluster eoc) || remaining == 0
      then some []
      else elim (read_sectors v.sectors_per_cluster (cluster_lba v cluster) remaining v.disk) [
        | none ↦ none
        | some bytes ↦ elim rest [ none ↦ none | some more ↦ some (bytes ++ more) ]
      ]

  -- The inner loop of `fs_create`: the data that is left, and the disk.
  pub write_sectors : ℕ → ℕ → List ℕ → S → List ℕ × S
  write_sectors zero lba buf s = (buf, s)
  write_sectors (suc n) lba buf s =
      write_sectors n (lba + 1) (drop 512 buf)
        (dk.write_sector lba (take 512 buf ++ replicate (512 - length (take 512 buf)) 0) s).1

  -- The outer loop of `fs_create`, for the data that is left, and its outcome. `rounds` is fuel: a
  -- round writes a byte at least.
  pub write_chain : ℕ → ℕ → ℕ → List ℕ → Volume S → Option (Written × Volume S)
  unfolding write_sectors
  write_chain zero first prev buf v = none
  write_chain (suc rounds) first prev buf v =
      let (c, fat) = alloc_cluster v.cluster_count v.fat_cache in
      let first' = if first == 0 then c else first in
      let linked = if prev == 0 then fat else fat_put prev c fat in
      let (more, s) = write_sectors v.sectors_per_cluster (cluster_lba v c) buf v.disk in
      let rest = write_chain rounds first' c more (record v { fat_cache = linked; disk = s }) in
      if length buf == 0
      then some (chain first, v)
      else if c == 0
      then some (disk_full first, record v { fat_cache = fat })
      else rest

  module _ (fuel : ℕ) where
    -- The bytes put into the buffer; the inner `none` is the result -1.
    pub fs_read : List ℕ → ℕ → Volume S → Option (Option (List ℕ))
    unfolding read_clusters
    fs_read name maxlen v =
        if not v.mounted then some none else elim (dir_find dk fuel v.cwd_cluster (to_83 name) v) [
          | none ↦ none
          | some none ↦ some none
          | some (some e) ↦
              if is_dir e || ltb maxlen (file_size e)
              then some none
              else some (read_clusters 8192 (first_cluster e) (file_size e) v)
        ]

    -- `free_chain(first); fat_flush();`
    pub drop_chain : ℕ → Volume S → Option (Volume S)
    drop_chain first v = elim (free_chain fuel first v.fat_cache) [
      | none ↦ none
      | some fat ↦ some (fat_flush dk (record v { fat_cache = fat }))
    ]

    -- The end of `fs_create`, where the data lies in the chain from `first`.
    pub enter_file : RtcTime → List ℕ → Option Slot → ℕ → ℕ → Volume S → Option (Bool × Volume S)
    unfolding drop_chain
    enter_file t name83 (some e) first len v =
        let entry = make_entry t name83 attr_file first len in
        elim (dk.read_sector e.lba v.disk) [
          | none ↦ none
          | some sec ↦ some (
            true,
            record v { disk = (dk.write_sector e.lba (copy_over sec e.off entry) v.disk).1 },
          )
        ]
    enter_file t name83 none first len v =
        elim (dir_add dk fuel v.cwd_cluster (make_entry t name83 attr_file first len) v) [
          | none ↦ none
          | some (true, v') ↦ some (true, v')
          | some (false, v') ↦ elim (drop_chain first v') [
            | none ↦ none
            | some v'' ↦ some (false, v'')
          ]
        ]

    -- `fs_create` from its loop on, where the entry `e` may stand already.
    pub create_at : RtcTime → List ℕ → Option Slot → List ℕ → Volume S → Option (Bool × Volume S)
    unfolding write_chain enter_file drop_chain
    create_at t name83 e buf v = elim (write_chain (suc (length buf)) 0 0 buf v) [
      | none ↦ none
      | some (disk_full first, v') ↦ elim (drop_chain first v') [
        | none ↦ none
        | some v'' ↦ some (false, v'')
      ]
      | some (chain first, v') ↦ enter_file t name83 e first (length buf) (fat_flush dk v')
    ]

    -- True for the result 0. `t` is the time that `make_entry` reads.
    pub fs_create : RtcTime → List ℕ → List ℕ → Volume S → Option (Bool × Volume S)
    unfolding create_at
    fs_create t name buf v =
        if not v.mounted
        then some (false, v)
        else elim (dir_find dk fuel v.cwd_cluster (to_83 name) v) [
          | none ↦ none
          | some none ↦ create_at t (to_83 name) none buf v
          | some (some e) ↦
              if is_dir e
              then some (false, v)
              else elim (free_chain fuel (first_cluster e) v.fat_cache) [
                | none ↦ none
                | some fat ↦ create_at t (to_83 name) (some e) buf (record v { fat_cache = fat })
              ]
        ]
