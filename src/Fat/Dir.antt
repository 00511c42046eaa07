-- ===== src/Fat/Dir.antt =====
-- The directories of fs/fat12.c: 32-byte entries, 16 to a sector. All walks share one form: for each
-- sector until the chain ends, for each of its entries until the body returns.
pub mod Walk
pub mod Ends
pub mod Find
mod Tests
use package.pumpkin_os.Rtc.{RtcTime}
use package.pumpkin_os.Prelude.{
  ℕ, zero, suc, ◌+◌, ◌-◌, ◌*◌, ◌/◌, ◌%◌, ◌^◌, bit_or, bit_and, ◌⊎◌, inl, inr,
}
use package.pumpkin_os.Prelude.{Bool, true, false, ◌&&◌, ◌||◌, not, ltb, leb, ◌==◌, if◌then◌else◌}
use package.pumpkin_os.Prelude.{
  Option, none, some, List, [], ◌∷◌, ◌++◌, length, take, drop, get_or, set, replicate,
}
use package.pumpkin_os.Fat.Table.{Cache, eoc, fat_get, fat_put, alloc_cluster}
use package.pumpkin_os.Fat.Volume.{
  Disk, Volume, attr_lfn, cluster_lba, dir_sector_lba, read_fs, write_fs, fat_flush,
}

-- An entry in its sector: where the sector lies, its bytes, and the entry's offset.
pub record Slot : Type 0 where
  pub lba : ℕ
  pub sec : List ℕ
  pub off : ℕ

-- `ent[i]`.
abbrev pub ent : Slot → ℕ → ℕ
ent s i = get_or s.sec (s.off + i) 0

-- The 32 bytes from the entry on.
abbrev pub entry_bytes : Slot → List ℕ
entry_bytes s = take 32 (drop s.off s.sec)

abbrev pub is_last : Slot → Bool
is_last s = ent s 0 == 0

-- Deleted entries and those of long names.
abbrev pub is_skipped : Slot → Bool
is_skipped s = ent s 0 == 0xE5 || ent s 11 == attr_lfn

-- How a walk leaves its loops: the body returned, the chain ended, or a sector could not be read.
pub data Outcome (R A : Type 0) : Type 0 where
  stopped : R → Outcome R A
  ended : A → Outcome R A
  unread : A → Outcome R A

module _ {R A : Type 0} (body : Slot → A → R ⊎ A) where
  -- `n` entries to go, from entry `e`.
  unfoldable pub walk_sector : ℕ → List ℕ → ℕ → ℕ → A → R ⊎ A
  walk_sector lba sec zero e a = inr a
  walk_sector lba sec (suc n) e a = elim (body (record { lba = lba; sec = sec; off = e * 32 }) a) [
    | inl r ↦ inl r
    | inr a' ↦ walk_sector lba sec n (e + 1) a'
  ]

  -- From sector `idx` on. `lba_at` is `dir_sector_lba` for the directory, in the state of the walk;
  -- `none` is a walk that ran out of fuel.
  unfoldable pub dir_walk :
      {S : Type 0} → Disk S → S → (A → ℕ → ℕ) → ℕ → ℕ → A → Option (Outcome R A)
  unfolding walk_sector
  dir_walk dk s lba_at zero idx a = none
  dir_walk dk s lba_at (suc fuel) idx a =
      let rest = λ (a' : A). dir_walk dk s lba_at fuel (idx + 1) a' in
      let lba = lba_at a idx in
      if lba == 0 then some (ended a) else elim (dk.read_sector lba s) [
        | none ↦ some (unread a)
        | some sec ↦ elim (walk_sector lba sec 16 0 a) [
          | inl r ↦ some (stopped r)
          | inr a' ↦ rest a'
        ]
      ]

-- `memcmp(ent, name83, 11) == 0`.
pub same_bytes : ℕ → List ℕ → List ℕ → Bool
same_bytes zero a b = true
same_bytes (suc n) a b = get_or a 0 0 == get_or b 0 0 && same_bytes n (drop 1 a) (drop 1 b)

-- The body of `dir_find`: `some` is the entry found, `none` the end of the directory.
pub find_body : List ℕ → Slot → Unit {0} → Option Slot ⊎ Unit {0}
unfolding same_bytes
find_body name83 s a =
    if is_last s
    then inl none
    else if is_skipped s
    then inr tt
    else if same_bytes 11 (entry_bytes s) name83
    then inl (some s)
    else inr tt

-- The result of a walk that returns 0 where it does not return an entry.
abbrev pub found : Option (Outcome (Option Slot) (Unit {0})) → Option (Option Slot)
found none = none
found (some (stopped r)) = some r
found (some (ended a)) = some none
found (some (unread a)) = some none

-- The body of the search in `dir_add`: an entry that is free.
pub free_body : Slot → Unit {0} → Slot ⊎ Unit {0}
free_body s a = if ent s 0 == 0x00 || ent s 0 == 0xE5 then inl s else inr tt

-- Bytes `bs` copied over a buffer from `i` on.
pub copy_over : List ℕ → ℕ → List ℕ → List ℕ
copy_over buf i [] = buf
copy_over buf i (b ∷ bs) = copy_over (set buf i b) (i + 1) bs

-- `while (fat_get(c) >= 2 && fat_get(c) < EOC) c = fat_get(c);`
pub last_cluster : ℕ → ℕ → Cache → Option ℕ
last_cluster zero c fat = none
last_cluster (suc fuel) c fat =
    let next = fat_get c fat in
    let rest = last_cluster fuel next fat in if leb 2 next && ltb next eoc then rest else some c

-- The packed date and time.
pub fat_now : RtcTime → ℕ × ℕ
fat_now t =
    let y = if leb 1980 t.year then t.year - 1980 else 0 in
    (
      bit_or (bit_or (y * 2 ^ 9) (bit_and t.month 0x0F * 2 ^ 5)) (bit_and t.day 0x1F) % 2 ^ 16,
      bit_or (bit_or (bit_and t.hour 0x1F * 2 ^ 11) (bit_and t.minute 0x3F * 2 ^ 5))
            (bit_and (t.second / 2) 0x1F)
          % 2 ^ 16,
    )

abbrev pub low : ℕ → ℕ
low w = bit_and w 0xFF

-- `make_entry` at time `t`: the 32 bytes.
pub make_entry : RtcTime → List ℕ → ℕ → ℕ → ℕ → List ℕ
unfolding fat_now
make_entry t name83 attr first_cluster size =
    let (fdate, ftime) = fat_now t in
    take 11 name83
    ++ (attr
        ∷ 0
        ∷ 0
        ∷ low ftime
        ∷ (ftime / 2 ^ 8)
        ∷ low fdate
        ∷ (fdate / 2 ^ 8)
        ∷ low fdate
        ∷ (fdate / 2 ^ 8)
        ∷ 0
        ∷ 0
        ∷ low ftime
        ∷ (ftime / 2 ^ 8)
        ∷ low fdate
        ∷ (fdate / 2 ^ 8)
        ∷ low first_cluster
        ∷ (first_cluster / 2 ^ 8)
        ∷ low size
        ∷ (size / 2 ^ 8 % 2 ^ 8)
        ∷ (size / 2 ^ 16 % 2 ^ 8)
        ∷ (size / 2 ^ 24 % 2 ^ 8)
        ∷ [])

module _ {S : Type 0} (dk : Disk S) (fuel : ℕ) where
  -- The entry with that name; `none` is a directory whose chain does not end.
  pub dir_find : ℕ → List ℕ → Volume S → Option (Option Slot)
  unfolding find_body dir_walk
  dir_find dir_cluster name83 v =
      found (dir_walk (find_body name83) dk v.disk (λ _. dir_sector_lba v dir_cluster) fuel 0 tt)

  -- The loop of `dir_add` that clears the `n` sectors of a new cluster from `lba` on.
  pub clear_sectors : ℕ → ℕ → S → S
  clear_sectors zero lba s = s
  clear_sectors (suc n) lba s =
      clear_sectors n (lba + 1) (dk.write_sector lba (replicate 512 0) s).1

  -- `dir_add` where no entry is free: a subdirectory grows by a cluster.
  pub grow_dir : ℕ → List ℕ → Volume S → Option (Bool × Volume S)
  unfolding last_cluster copy_over clear_sectors
  grow_dir dir_cluster entry v =
      if dir_cluster == 0
      then some (false, v)
      else elim (last_cluster fuel dir_cluster v.fat_cache) [
        | none ↦ none
        | some c ↦
            let (nc, fat) = alloc_cluster v.cluster_count v.fat_cache in
            let linked = fat_flush dk (record v { fat_cache = fat_put c nc fat }) in
            let lba = cluster_lba v nc in
            let cleared = clear_sectors v.sectors_per_cluster lba linked.disk in
            let (ok, s) = dk.write_sector lba (copy_over (replicate 512 0) 0 entry) cleared in
            if nc == 0
            then some (false, record v { fat_cache = fat })
            else some (true, record linked { disk = s })
      ]

  -- True for the result 0.
  pub dir_add : ℕ → List ℕ → Volume S → Option (Bool × Volume S)
  unfolding free_body dir_walk copy_over grow_dir
  dir_add dir_cluster entry v =
      elim (dir_walk free_body dk v.disk (λ _. dir_sector_lba v dir_cluster) fuel 0 tt) [
        | none ↦ none
        | some (ended a) ↦ grow_dir dir_cluster entry v
        | some (unread a) ↦ some (false, v)
        | some (stopped slot) ↦
            let (ok, s) = dk.write_sector slot.lba (copy_over slot.sec slot.off entry) v.disk in
            some (ok, record v { disk = s })
      ]
