-- ===== src/Pmm/Bitmap.antt =====
-- One frame's bit: what `frame_mark_used` and `frame_mark_free` of mm/pmm.c do to the bitmap and to
-- the counter of used frames.
use pumpkin_os.Prelude.{ℕ, zero, suc, ◌+◌, ◌-◌, ◌*◌, ◌/◌, ◌%◌, ◌^◌, ◌≤◌, ◌<◌}
use pumpkin_os.Prelude.{◌≡◌, refl, ◌≢◌, sym, bit_and, bit_or, arith, length, get_or, set}
use pumpkin_os.Prelude.{◌==◌, if◌then◌else◌, all_below, all_below_sound, ==→≡, true, List}
use pumpkin_os.Prelude.{get_or-set_self, get_or-set_ne, Bool-cases, inl, inr, ==→≢}
use pumpkin_os.Prelude.Bits.{
  bit, bit-bit_and, bit-bit_or, bit_and-pow, bit_and_mask, pow_pos, bit_lt_two,
}
use pumpkin_os.Pmm.{Pmm, word, frame_mark_used, frame_mark_free}

-- The bit of frame `f`: 1 for used.
abbrev pub used_in : List ℕ → ℕ → ℕ
used_in bitmap f = bit (get_or bitmap (f / 32) 0) (f % 32)

abbrev pub used : Pmm → ℕ → ℕ
used s f = used_in s.bitmap f

-- How many of the first `n` frames are used.
abbrev pub count_used : List ℕ → ℕ → ℕ
count_used bitmap zero = 0
count_used bitmap (suc n) = count_used bitmap n + used_in bitmap n

-- The bitmap covers the frames, the frames lie below 4 GiB, and the counter is right.
pub record IsValid (s : Pmm) : Type 0 where
  pub covers : s.total_frames ≤ 32 * length s.bitmap
  pub bounded : s.total_frames ≤ 2 ^ 20
  pub counted : s.used_frames ≡ count_used s.bitmap s.total_frames

low_five : (f : ℕ) → bit_and f 31 ≡ f % 32
low_five f = bit_and_mask 5 f

single_bit_table :
    all_below 32 (λ b. all_below 32 (λ i. bit (2 ^ b) i == (if i == b then 1 else 0))) ≡ true
unfolding all_below
single_bit_table = refl

single_bit : (b i : ℕ) → b < 32 → i < 32 → bit (2 ^ b) i ≡ (if i == b then 1 else 0)
single_bit b i hb hi =
    ==→≡ _ _ (all_below_sound 32 _ i (all_below_sound 32 _ b single_bit_table hb) hi)

other_bits_table :
    all_below 32 (λ b. all_below 32 (λ i. bit (2 ^ 32 - 1 - 2 ^ b) i == (if i == b then 0 else 1)))
    ≡ true
unfolding all_below
other_bits_table = refl

other_bits : (b i : ℕ) → b < 32 → i < 32 → bit (2 ^ 32 - 1 - 2 ^ b) i ≡ (if i == b then 0 else 1)
other_bits b i hb hi =
    ==→≡ _ _ (all_below_sound 32 _ i (all_below_sound 32 _ b other_bits_table hb) hi)

-- What the code's test of a bit says.
pub bit_and-pow-zero : (w b : ℕ) → bit_and w (2 ^ b) ≡ 0 → bit w b ≡ 0
bit_and-pow-zero w b h = grind (arith, bit_and-pow w b, bit_lt_two w b, pow_pos b)

pub bit_and-pow-ne : (w b : ℕ) → bit_and w (2 ^ b) ≢ 0 → bit w b ≡ 1
bit_and-pow-ne w b h = grind (arith, bit_and-pow w b, bit_lt_two w b)

set_bits :
    (w b i : ℕ) → b < 32 → i < 32 → bit (bit_or w (2 ^ b)) i ≡ (if i == b then 1 else bit w i)
set_bits w b i hb hi = ground (arith, bit-bit_or w (2 ^ b) i, single_bit b i hb hi, bit_lt_two w i)

clear_bits :
    (w b i : ℕ)
    → b < 32
    → i < 32
    → bit (bit_and w (2 ^ 32 - 1 - 2 ^ b)) i ≡ (if i == b then 0 else bit w i)
clear_bits w b i hb hi =
    ground (arith, bit-bit_and w (2 ^ 32 - 1 - 2 ^ b) i, other_bits b i hb hi, bit_lt_two w i)

-- Writing a word that differs in one bit changes one frame.
used_in-set :
    (bitmap : List ℕ) (f g v w : ℕ)
    → f / 32 < length bitmap
    → bit w (g % 32) ≡ (if g % 32 == f % 32 then v else bit (get_or bitmap (f / 32) 0) (g % 32))
    → used_in (set bitmap (f / 32) w) g ≡ (if g == f then v else used_in bitmap g)
used_in-set bitmap f g v w inside bits = elim (Bool-cases (g / 32 == f / 32)) [
  | inl same ↦
      let e = ==→≡ (g / 32) (f / 32) same in
      rw (e, get_or-set_self bitmap (f / 32) w 0 inside) (ground (arith, bits))
  | inr other ↦
      let ne = ==→≢ (g / 32) (f / 32) other in
      rw (get_or-set_ne bitmap (f / 32) (g / 32) w 0 (λ e. ne (sym e))) (ground arith)
]

-- A frame below `total_frames` becomes used, and no other frame changes.
pub used-mark_used :
    (f g : ℕ) (s : Pmm)
    → IsValid s
    → f < s.total_frames
    → used (frame_mark_used f s) g ≡ (if g == f then 1 else used s g)
unfolding frame_mark_used
used-mark_used f g s v h = ground (
  arith,
  low_five f,
  bit_and-pow-ne (word s (f / 32)) (f % 32),
  set_bits (word s (f / 32)) (f % 32) (g % 32),
  used_in-set s.bitmap f g 1 (bit_or (word s (f / 32)) (2 ^ (f % 32))),
)

-- A frame below `total_frames` becomes free, and no other frame changes.
pub used-mark_free :
    (f g : ℕ) (s : Pmm)
    → IsValid s
    → f < s.total_frames
    → used (frame_mark_free f s) g ≡ (if g == f then 0 else used s g)
unfolding frame_mark_free
used-mark_free f g s v h = ground (
  arith,
  low_five f,
  bit_and-pow-zero (word s (f / 32)) (f % 32),
  clear_bits (word s (f / 32)) (f % 32) (g % 32),
  used_in-set s.bitmap f g 0 (bit_and (word s (f / 32)) (2 ^ 32 - 1 - 2 ^ (f % 32))),
)
