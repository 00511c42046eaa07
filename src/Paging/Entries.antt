-- ===== src/Paging/Entries.antt =====
-- The words of the page tables of mm/paging.c, and the entries that they take up in memory.
use pumpkin_os.Prelude.{
  ℕ, zero, suc, ◌+◌, ◌*◌, ◌/◌, ◌%◌, ◌^◌, ◌<◌, ◌≤◌, bit_and, bit_or, ◌≡◌, ◌≢◌, refl, ◌∙◌, arith,
  true, false, ◌==◌, ≢→==, ==_refl, dec_lt, update,
}
use pumpkin_os.Prelude.Bits.{
  bit, bit_lt_two, bit-bit_or, bit_and-pow, bit_and_mask, bit_and_high, bit_or-div_low,
}
use pumpkin_os.Paging.{addr_mask, is_present, zero_from, zero_table, directory_word, table_word}

is_present-bit : (v : ℕ) → bit v 0 ≡ 1 → is_present v ≡ true
unfolding is_present
is_present-bit v h = let e : bit_and v 1 ≡ 1 = omega (arith, bit_and-pow v 0, h) in rw e refl

bit-or-left : (a b : ℕ) → bit a 0 ≡ 1 → bit (bit_or a b) 0 ≡ 1
bit-or-left a b h = omega (arith, bit-bit_or a b 0, bit_lt_two b 0, h)

bit-or-right : (a b : ℕ) → bit b 0 ≡ 1 → bit (bit_or a b) 0 ≡ 1
bit-or-right a b h = omega (arith, bit-bit_or a b 0, bit_lt_two a 0, h)

pub zero-is_present : is_present 0 ≡ false
unfolding is_present
zero-is_present = refl

pub directory_word-is_present : (pt flags : ℕ) → is_present (directory_word pt flags) ≡ true
unfolding directory_word
directory_word-is_present pt flags =
    is_present-bit (bit_or (bit_or (bit_or pt 1) 2) (bit_and flags 4)) (
      bit-or-left (bit_or (bit_or pt 1) 2) (bit_and flags 4)
        (bit-or-left (bit_or pt 1) 2 (bit-or-right pt 1 refl)))

pub table_word-is_present : (phys flags : ℕ) → is_present (table_word phys flags) ≡ true
unfolding table_word
table_word-is_present phys flags =
    let low = bit_or (bit_and phys addr_mask) (bit_and flags 0xFFF) in
    is_present-bit (bit_or low 1) (bit-or-right low 1 refl)

-- The mask keeps the number of the frame.
pub masked : (v : ℕ) → bit_and v addr_mask ≡ v / 2 ^ 12 % 2 ^ 20 * 2 ^ 12
masked v = omega (arith, bit_and_high 12 v 0xFFFFF, bit_and_mask 20 (v / 2 ^ 12))

pub directory_word-masked :
    (pt flags : ℕ) → pt % 4096 ≡ 0 → pt < 2 ^ 32 → bit_and (directory_word pt flags) addr_mask ≡ pt
unfolding directory_word
directory_word-masked pt flags a b =
    let user = bit_and flags 4 in
    let small : user < 2 ^ 12 =
      omega (arith, bit_and_high 2 flags 1, bit_and_mask 1 (flags / 2 ^ 2)) in
    let e1 = bit_or-div_low 12 pt 1 (omega arith) in
    let e2 = bit_or-div_low 12 (bit_or pt 1) 2 (omega arith) in
    let e3 = bit_or-div_low 12 (bit_or (bit_or pt 1) 2) user small in
    omega (arith, masked (bit_or (bit_or (bit_or pt 1) 2) user), e1, e2, e3)

pub table_word-masked :
    (phys flags : ℕ) → bit_and (table_word phys flags) addr_mask ≡ bit_and phys addr_mask
unfolding table_word
table_word-masked phys flags =
    let base = bit_and phys addr_mask in
    let low = bit_and flags 0xFFF in
    let small : low < 2 ^ 12 = omega (arith, bit_and_mask 12 flags) in
    let e1 = bit_or-div_low 12 base low small in
    let e2 = bit_or-div_low 12 (bit_or base low) 1 (omega arith) in
    omega (arith, masked (bit_or (bit_or base low) 1), masked phys, e1, e2)

zero_from-outside :
    (n table i a : ℕ) (w : ℕ → ℕ)
    → ((j : ℕ) → i ≤ j → j < i + n → a ≢ table + 4 * j)
    → zero_from table i n w a ≡ w a
unfolding zero_from
zero_from-outside zero table i a w h = refl
zero_from-outside (suc n) table i a w h =
    let miss : (a == (table + 4 * i)) ≡ false =
      ≢→== a (table + 4 * i) (h i (omega arith) (omega arith)) in
    let rest =
      zero_from-outside n table (i + 1) a (update (table + 4 * i) 0 w)
        (λ j l g. h j (omega arith) (omega arith)) in
    rest ∙ rw miss refl

zero_from-inside :
    (n table i j : ℕ) (w : ℕ → ℕ) → i ≤ j → j < i + n → zero_from table i n w (table + 4 * j) ≡ 0
unfolding zero_from
zero_from-inside zero table i j w lo hi = absurd (omega arith)
zero_from-inside (suc n) table i j w lo hi = elim (dec_lt i j) [
  | yes l ↦
      zero_from-inside n table (i + 1) j (update (table + 4 * i) 0 w) (omega arith) (omega arith)
  | no l ↦
      let e : i ≡ j = omega arith in
      let rest =
        zero_from-outside n table (i + 1) (table + 4 * j) (update (table + 4 * i) 0 w)
          (λ m a b x. absurd (omega arith)) in
      rest ∙ (rw e (rw (==_refl (table + 4 * j)) refl))
]

-- `zero_table` clears the entries of the table, and writes nothing else.
pub zero_table-inside :
    (table j : ℕ) (w : ℕ → ℕ) → j < 1024 → zero_table table w (table + 4 * j) ≡ 0
unfolding zero_table
zero_table-inside table j w h = zero_from-inside 1024 table 0 j w (omega arith) h

pub zero_table-outside :
    (table a : ℕ) (w : ℕ → ℕ)
    → ((j : ℕ) → j < 1024 → a ≢ table + 4 * j)
    → zero_table table w a ≡ w a
unfolding zero_table
zero_table-outside table a w h = zero_from-outside 1024 table 0 a w (λ j l g. h j g)
