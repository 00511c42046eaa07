-- ===== src/Fat/Volume.antt =====
-- The mounted volume of fs/fat12.c: the geometry from its boot sector, the cached table, the current
-- directory, and the disk below, one 512-byte sector at a time.
pub mod Lba
use package.pumpkin_os.Prelude.{ℕ, zero, suc, ◌+◌, ◌-◌, ◌*◌, ◌/◌, ◌%◌, ◌^◌, bit_or, bit_and}
use package.pumpkin_os.Prelude.{Bool, true, false, ◌&&◌, ◌||◌, not, ltb, leb, ◌==◌, if◌then◌else◌}
use package.pumpkin_os.Prelude.{
  Option, none, some, List, [], ◌∷◌, ◌++◌, take, drop, get_or, replicate,
}
use package.pumpkin_os.Fat.Table.{Cache, eoc, fat_get}

-- What the file calls of drivers/floppy.c, on its state `S`: a read is `none` and a write `false`
-- where the C function does not return 0. A read leaves the contents of the disk alone.
pub record Disk (S : Type 0) : Type 0 where
  pub read_sector : ℕ → S → Option (List ℕ)
  pub write_sector : ℕ → List ℕ → S → Bool × S

abbrev pub attr_volume : ℕ
attr_volume = 0x08

abbrev pub attr_dir : ℕ
attr_dir = 0x10

abbrev pub attr_file : ℕ
attr_file = 0x20

abbrev pub attr_lfn : ℕ
attr_lfn = 0x0F

-- The file's static variables, and the disk.
pub record Volume (S : Type 0) : Type 0 where
  pub sectors_per_cluster : ℕ
  pub reserved_sectors : ℕ
  pub num_fats : ℕ
  pub sectors_per_fat : ℕ
  pub root_start : ℕ
  pub root_sectors : ℕ
  pub data_start : ℕ
  pub cluster_count : ℕ
  pub fat_cache : Cache
  pub mounted : Bool
  pub cwd_cluster : ℕ
  pub cwd_path : List ℕ
  pub disk : S

-- The first sector of a cluster.
unfoldable pub cluster_lba : {S : Type 0} → Volume S → ℕ → ℕ
cluster_lba v cluster =
    (v.data_start + (cluster + 2 ^ 32 - 2) % 2 ^ 32 * v.sectors_per_cluster) % 2 ^ 32

-- The `for` of `dir_sector_lba`: `n` clusters further along a chain; `none` is its `return 0`.
unfoldable pub follow : ℕ → ℕ → Cache → Option ℕ
follow zero c fat = some c
follow (suc n) c fat =
    let next = fat_get c fat in
    let rest = follow n next fat in if ltb next 2 || leb eoc next then none else rest

unfoldable pub dir_sector_lba : {S : Type 0} → Volume S → ℕ → ℕ → ℕ
unfolding follow cluster_lba
dir_sector_lba v dir_cluster index =
    if dir_cluster == 0
    then (if leb v.root_sectors index then 0 else (v.root_start + index) % 2 ^ 32)
    else elim (follow (index / v.sectors_per_cluster) dir_cluster v.fat_cache) [
      | none ↦ 0
      | some c ↦ (cluster_lba v c + index % v.sectors_per_cluster) % 2 ^ 32
    ]

-- A little-endian word in a sector.
abbrev pub word_at : List ℕ → ℕ → ℕ
word_at b i = bit_or (get_or b i 0) (get_or b (i + 1) 0 * 2 ^ 8)

module _ {S : Type 0} (dk : Disk S) where
  -- `count` sectors; `none` for the result -1.
  pub read_fs : ℕ → ℕ → S → Option (List ℕ)
  read_fs lba zero s = some []
  read_fs lba (suc n) s =
      let rest = read_fs (lba + 1) n s in
      elim (dk.read_sector lba s) [
        | none ↦ none
        | some b ↦ elim rest [ none ↦ none | some bs ↦ some (b ++ bs) ]
      ]

  -- True for the result 0.
  pub write_fs : ℕ → ℕ → List ℕ → S → Bool × S
  write_fs lba zero buf s = (true, s)
  write_fs lba (suc n) buf s =
      let (ok, s') = dk.write_sector lba (take 512 buf) s in
      let rest = write_fs (lba + 1) n (drop 512 buf) s' in if ok then rest else (false, s')

  -- The loop of `fat_flush` from copy `i`, with `n` copies to go.
  pub flush_copies : ℕ → ℕ → Volume S → S → S
  unfolding write_fs
  flush_copies zero i v s = s
  flush_copies (suc n) i v s =
      flush_copies n (i + 1) v
        (write_fs (v.reserved_sectors + i * v.sectors_per_fat) v.sectors_per_fat v.fat_cache s).1

  pub fat_flush : Volume S → Volume S
  unfolding flush_copies
  fat_flush v = record v { disk = flush_copies v.num_fats 0 v v.disk }
