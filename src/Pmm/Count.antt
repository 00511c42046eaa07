-- ===== src/Pmm/Count.antt =====
-- The counter `used_frames` of mm/pmm.c: it stays the number of used frames, on every operation on
-- one frame.
use pumpkin_os.Prelude.{ℕ, zero, suc, ◌+◌, ◌-◌, ◌/◌, ◌%◌, ◌^◌, ◌≤◌, ◌<◌, ◌≡◌, refl, ap₂, List}
use pumpkin_os.Prelude.{ltb, ◌==◌, if◌then◌else◌, arith, length, get_or, length-set, bit_and}
use pumpkin_os.Prelude.{Bool-cases, inl, inr, ltb→lt, ltb→le, bit_or}
use pumpkin_os.Prelude.Bits.{bit_lt_two, bit_and_mask}
use pumpkin_os.Pmm.{Pmm, word, frame_mark_used, frame_mark_free}
use pumpkin_os.Pmm.Bitmap.{used_in, used, count_used, IsValid, bit_and-pow-zero, bit_and-pow-ne}
use pumpkin_os.Pmm.Bitmap.{used-mark_used, used-mark_free}

pub count_used-le : (bitmap : List ℕ) (n : ℕ) → count_used bitmap n ≤ n
count_used-le bitmap zero = omega arith
count_used-le bitmap (suc n) =
    omega (arith, count_used-le bitmap n, bit_lt_two (get_or bitmap (n / 32) 0) (n % 32))

-- Changing one frame to `v` changes the count by as much.
module _ (old new : List ℕ) (f v : ℕ)
    (changed : (g : ℕ) → used_in new g ≡ (if g == f then v else used_in old g)) where
  count_used_after : (n : ℕ) → n ≤ f → count_used new n ≡ count_used old n
  count_used_after zero h = refl
  count_used_after (suc n) h = ground (arith, count_used_after n, changed n)

  pub count_used-change : (n : ℕ) → f < n → count_used new n + used_in old f ≡ count_used old n + v
  count_used-change zero h = absurd (omega arith)
  count_used-change (suc n) h = ground (arith, changed n, count_used_after n, count_used-change n)

pub count_used_ext :
    (old new : List ℕ) (n : ℕ)
    → ((g : ℕ) → used_in new g ≡ used_in old g)
    → count_used new n ≡ count_used old n
count_used_ext old new zero same = refl
count_used_ext old new (suc n) same = ap₂ ◌+◌ (count_used_ext old new n same) (same n)

pub total-mark_used : (f : ℕ) (s : Pmm) → (frame_mark_used f s).total_frames ≡ s.total_frames
unfolding frame_mark_used
total-mark_used f s = ground arith

pub total-mark_free : (f : ℕ) (s : Pmm) → (frame_mark_free f s).total_frames ≡ s.total_frames
unfolding frame_mark_free
total-mark_free f s = ground arith

pub outside-mark_used : (f : ℕ) (s : Pmm) → s.total_frames ≤ f → frame_mark_used f s ≡ s
unfolding frame_mark_used
outside-mark_used f s h = ground arith

pub outside-mark_free : (f : ℕ) (s : Pmm) → s.total_frames ≤ f → frame_mark_free f s ≡ s
unfolding frame_mark_free
outside-mark_free f s h = ground arith

length-mark_used : (f : ℕ) (s : Pmm) → length (frame_mark_used f s).bitmap ≡ length s.bitmap
unfolding frame_mark_used
length-mark_used f s =
    ground (arith, length-set s.bitmap (f / 32) (bit_or (word s (f / 32)) (2 ^ bit_and f 31)))

length-mark_free : (f : ℕ) (s : Pmm) → length (frame_mark_free f s).bitmap ≡ length s.bitmap
unfolding frame_mark_free
length-mark_free f s = ground (
  arith,
  length-set s.bitmap (f / 32) (bit_and (word s (f / 32)) (2 ^ 32 - 1 - 2 ^ bit_and f 31)),
)

pub counter-mark_used :
    (f : ℕ) (s : Pmm)
    → f < s.total_frames
    → (frame_mark_used f s).used_frames
      ≡ (if used s f == 0 then (s.used_frames + 1) % 2 ^ 32 else s.used_frames)
unfolding frame_mark_used
counter-mark_used f s h = ground (
  arith,
  bit_and_mask 5 f,
  bit_and-pow-ne (word s (f / 32)) (f % 32),
  bit_and-pow-zero (word s (f / 32)) (f % 32),
)

counter-mark_free :
    (f : ℕ) (s : Pmm)
    → f < s.total_frames
    → (frame_mark_free f s).used_frames
      ≡ (if used s f == 0 then s.used_frames else (s.used_frames + 2 ^ 32 - 1) % 2 ^ 32)
unfolding frame_mark_free
counter-mark_free f s h = ground (
  arith,
  bit_and_mask 5 f,
  bit_and-pow-ne (word s (f / 32)) (f % 32),
  bit_and-pow-zero (word s (f / 32)) (f % 32),
)

pub mark_used-IsValid : (f : ℕ) (s : Pmm) → IsValid s → IsValid (frame_mark_used f s)
mark_used-IsValid f s v = elim (Bool-cases (ltb f s.total_frames)) [
  | inl h ↦ ground (
    arith,
    total-mark_used f s,
    length-mark_used f s,
    counter-mark_used f s,
    count_used-change s.bitmap (frame_mark_used f s).bitmap f 1
        (λ g. used-mark_used f g s v (ltb→lt _ _ h)) s.total_frames,
    count_used-le s.bitmap s.total_frames,
    count_used-le (frame_mark_used f s).bitmap s.total_frames,
    bit_lt_two (word s (f / 32)) (f % 32),
  )
  | inr h ↦ rw (outside-mark_used f s (ltb→le _ _ h)) v
]

pub mark_free-IsValid : (f : ℕ) (s : Pmm) → IsValid s → IsValid (frame_mark_free f s)
mark_free-IsValid f s v = elim (Bool-cases (ltb f s.total_frames)) [
  | inl h ↦ ground (
    arith,
    total-mark_free f s,
    length-mark_free f s,
    counter-mark_free f s,
    count_used-change s.bitmap (frame_mark_free f s).bitmap f 0
        (λ g. used-mark_free f g s v (ltb→lt _ _ h)) s.total_frames,
    count_used-le s.bitmap s.total_frames,
    bit_lt_two (word s (f / 32)) (f % 32),
  )
  | inr h ↦ rw (outside-mark_free f s (ltb→le _ _ h)) v
]
