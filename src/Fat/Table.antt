-- ===== src/Fat/Table.antt =====
-- The cached FAT of fs/fat12.c: 12-bit entries packed in pairs into three bytes.
pub mod Entries
pub mod Alloc
pub mod Chains
mod Tests
use package.pumpkin_os.Prelude.{ℕ, zero, suc, ◌+◌, ◌*◌, ◌/◌, ◌%◌, ◌^◌, bit_and, bit_or}
use package.pumpkin_os.Prelude.{
  ◌&&◌, ltb, leb, ◌==◌, if◌then◌else◌, Option, none, some, List, get_or, set,
}

-- `uint8_t *fat_cache`.
abbrev pub Cache : Type 0
Cache = List ℕ

-- From this value on an entry ends its chain.
abbrev pub eoc : ℕ
eoc = 0x0FF8

-- The two bytes that hold an entry, as a 16-bit word; `off` is its offset.
abbrev pub entry_word : Cache → ℕ → ℕ
entry_word fat off = bit_or (get_or fat off 0) (get_or fat (off + 1) 0 * 2 ^ 8) % 2 ^ 16

abbrev pub entry_offset : ℕ → ℕ
entry_offset cluster = cluster + cluster / 2

pub fat_get : ℕ → Cache → ℕ
fat_get cluster fat =
    let v = entry_word fat (entry_offset cluster) in
    if bit_and cluster 1 == 0 then bit_and v 0x0FFF else v / 2 ^ 4

-- The word that `fat_put` stores.
abbrev pub put_word : ℕ → ℕ → ℕ → ℕ
put_word cluster v value =
    if bit_and cluster 1 == 0
    then bit_or (bit_and v 0xF000) (bit_and value 0x0FFF) % 2 ^ 16
    else bit_or (bit_and v 0x000F) (value * 2 ^ 4) % 2 ^ 16

pub fat_put : ℕ → ℕ → Cache → Cache
fat_put cluster value fat =
    let off = entry_offset cluster in
    let v = put_word cluster (entry_word fat off) value in
    set (set fat off (bit_and v 0xFF)) (off + 1) (v / 2 ^ 8)

-- The loop of `alloc_cluster` from cluster `c`, with `n` clusters to go: the first free one.
pub free_cluster : ℕ → ℕ → Cache → Option ℕ
free_cluster zero c fat = none
free_cluster (suc n) c fat =
    let rest = free_cluster n (c + 1) fat in if fat_get c fat == 0 then some c else rest

-- The cluster, 0 for a full disk, and the cache. The counter of the C loop has 16 bits: it does not
-- wrap with fewer than 65534 clusters, and FAT12 has no entry for cluster 4096 or above.
pub alloc_cluster : ℕ → Cache → ℕ × Cache
alloc_cluster cluster_count fat = elim (free_cluster cluster_count 2 fat) [
  | some c ↦ (c, fat_put c 0xFFF fat)
  | none ↦ (0, fat)
]

-- The `while` of `free_chain`; `none` is a loop that ran out of fuel.
pub free_chain : ℕ → ℕ → Cache → Option Cache
free_chain zero cluster fat = none
free_chain (suc fuel) cluster fat =
    let rest = free_chain fuel (fat_get cluster fat) (fat_put cluster 0 fat) in
    if leb 2 cluster && ltb cluster eoc then rest else some fat
