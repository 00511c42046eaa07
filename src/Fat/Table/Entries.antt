-- ===== src/Fat/Table/Entries.antt =====
-- Reading and writing one entry of the FAT of fs/fat12.c.
use pumpkin_os.Prelude.{[], ◌∷◌, zero, suc}
use pumpkin_os.Prelude.{ℕ, ◌+◌, ◌*◌, ◌/◌, ◌%◌, ◌^◌, ◌<◌, ◌≡◌, ◌≢◌, arith, bit_and, ◌∙◌}
use pumpkin_os.Prelude.{◌==◌, if◌then◌else◌, length, get_or, set, length-set, get_or-set}
use pumpkin_os.Prelude.{Bool-cases, inl, inr}
use pumpkin_os.Prelude.Bits.{bit_and_mask, bit_and_high, bit_or_fields, bit_or_high}
use pumpkin_os.Fat.Table.{Cache, entry_word, entry_offset, put_word, fat_get, fat_put}

-- Every cell holds a byte.
abbrev pub IsBytes : Cache → Type 0
IsBytes fat = (i : ℕ) → get_or fat i 0 < 256

-- The cache holds the entry of `cluster`.
abbrev pub Covers : Cache → ℕ → Type 0
Covers fat cluster = entry_offset cluster + 1 < length fat

entry_word_lem :
    (fat : Cache) (off : ℕ)
    → IsBytes fat
    → entry_word fat off ≡ get_or fat off 0 + get_or fat (off + 1) 0 * 256
entry_word_lem fat off b =
    omega (
      arith,
      b off,
      b (off + 1),
      bit_or_fields 8 (get_or fat off 0) (get_or fat (off + 1) 0) (b off),
    )

pub fat_get_even :
    (c : ℕ) (fat : Cache)
    → IsBytes fat
    → c % 2 ≡ 0
    → fat_get c fat ≡ get_or fat (entry_offset c) 0 + get_or fat (entry_offset c + 1) 0 % 16 * 256
unfolding fat_get
fat_get_even c fat b e = ground (
  arith,
  bit_and_mask 1 c,
  bit_and_mask 12 (entry_word fat (entry_offset c)),
  entry_word_lem fat (entry_offset c) b,
  b (entry_offset c),
)

pub fat_get_odd :
    (c : ℕ) (fat : Cache)
    → IsBytes fat
    → c % 2 ≡ 1
    → fat_get c fat ≡ get_or fat (entry_offset c) 0 / 16 + get_or fat (entry_offset c + 1) 0 * 16
unfolding fat_get
fat_get_odd c fat b e =
    ground (arith, bit_and_mask 1 c, entry_word_lem fat (entry_offset c) b, b (entry_offset c))

put_word_even :
    (c v value : ℕ) → c % 2 ≡ 0 → v < 2 ^ 16 → put_word c v value ≡ v / 4096 * 4096 + value % 4096
put_word_even c v value e h = ground (
  arith,
  bit_and_mask 1 c,
  bit_and_mask 12 value,
  bit_and_high 12 v 15,
  bit_and_mask 4 (v / 2 ^ 12),
  bit_or_high 12 (value % 2 ^ 12) (v / 2 ^ 12),
)

put_word_odd : (c v value : ℕ) → c % 2 ≡ 1 → value < 4096 → put_word c v value ≡ v % 16 + value * 16
put_word_odd c v value e h =
    ground (arith, bit_and_mask 1 c, bit_and_mask 4 v, bit_or_fields 4 (v % 16) value)

-- The bytes after `fat_put`, at the offset `i`.
put_byte : ℕ → ℕ → Cache → ℕ → ℕ
put_byte c value fat i =
    let off = entry_offset c in
    let w = put_word c (entry_word fat off) value in
    if i == off then w % 256 else if i == off + 1 then w / 256 else get_or fat i 0

get_or-fat_put :
    (c value i : ℕ) (fat : Cache)
    → Covers fat c
    → get_or (fat_put c value fat) i 0 ≡ put_byte c value fat i
unfolding fat_put put_byte
get_or-fat_put c value i fat cov =
    let off = entry_offset c in
    let w = put_word c (entry_word fat off) value in
    let once = set fat off (bit_and w 0xFF) in
    ground (
      arith,
      bit_and_mask 8 w,
      length-set fat off (bit_and w 0xFF),
      get_or-set once (off + 1) i (w / 2 ^ 8) 0,
      get_or-set fat off i (bit_and w 0xFF) 0,
    )

pub length-fat_put : (c value : ℕ) (fat : Cache) → length (fat_put c value fat) ≡ length fat
unfolding fat_put
length-fat_put c value fat =
    let off = entry_offset c in
    let w = put_word c (entry_word fat off) value in
    length-set (set fat off (bit_and w 0xFF)) (off + 1) (w / 2 ^ 8)
    ∙ length-set fat off (bit_and w 0xFF)

put_word-lt : (c v value : ℕ) → put_word c v value < 2 ^ 16
put_word-lt c v value = ground arith

-- `fat_put` stores bytes.
pub fat_put-IsBytes :
    (c value : ℕ) (fat : Cache) → Covers fat c → IsBytes fat → IsBytes (fat_put c value fat)
unfolding put_byte
fat_put-IsBytes c value fat cov b i = ground (
  arith,
  get_or-fat_put c value i fat cov,
  b i,
  put_word-lt c (entry_word fat (entry_offset c)) value,
)

-- In a cache of bytes that holds the entry, a 12-bit value reads back as it was written.
pub fat_get-put_self :
    (c value : ℕ) (fat : Cache)
    → Covers fat c
    → IsBytes fat
    → value < 4096
    → fat_get c (fat_put c value fat) ≡ value
unfolding put_byte
fat_get-put_self c value fat cov b lt =
    let off = entry_offset c in
    let v = entry_word fat off in
    let b' = fat_put-IsBytes c value fat cov b in
    let here = get_or-fat_put c value off fat cov in
    let next = get_or-fat_put c value (off + 1) fat cov in
    elim (Bool-cases (c % 2 == 0)) [
      | inl even ↦
          ground
            (arith, here, next, fat_get_even c (fat_put c value fat) b', put_word_even c v value)
      | inr odd ↦
          ground (arith, here, next, fat_get_odd c (fat_put c value fat) b', put_word_odd c v value)
    ]

-- In a cache of bytes that holds the entry, writing a 12-bit value leaves every other entry alone,
-- also the one that shares a byte with it.
pub fat_get-put_ne :
    (c d value : ℕ) (fat : Cache)
    → Covers fat c
    → IsBytes fat
    → value < 4096
    → c ≢ d
    → fat_get d (fat_put c value fat) ≡ fat_get d fat
unfolding put_byte
fat_get-put_ne c d value fat cov b lt ne =
    let off = entry_offset c in
    let to = entry_offset d in
    let v = entry_word fat off in
    let new = fat_put c value fat in
    let b' = fat_put-IsBytes c value fat cov b in
    let first = get_or-fat_put c value to fat cov in
    let second = get_or-fat_put c value (to + 1) fat cov in
    let word = entry_word_lem fat off b in
    elim (Bool-cases (d % 2 == 0)) [
      | inl even ↦ ground (
        arith,
        first,
        second,
        word,
        fat_get_even d new b',
        fat_get_even d fat b,
        put_word_odd c v value,
        b off,
        b to,
      )
      | inr odd ↦ ground (
        arith,
        first,
        second,
        word,
        fat_get_odd d new b',
        fat_get_odd d fat b,
        put_word_even c v value,
        b off,
        b to,
      )
    ]

abbrev pub AllBytes : Cache → Type 0
AllBytes [] = Unit
AllBytes (b ∷ fat) = (b < 256) × AllBytes fat

pub AllBytes-IsBytes : (fat : Cache) → AllBytes fat → IsBytes fat
AllBytes-IsBytes [] h i = omega arith
AllBytes-IsBytes (b ∷ fat) h zero = h.0
AllBytes-IsBytes (b ∷ fat) h (suc i) = AllBytes-IsBytes fat h.1 i
