-- ===== src/Pmm/Range.antt =====
-- `reserve_range` and `free_range` of mm/pmm.c, and their callers after start-up.
use pumpkin_os.Prelude.{ℕ, zero, suc, ◌+◌, ◌-◌, ◌*◌, ◌/◌, ◌%◌, ◌^◌, ◌≡◌, refl, ◌∙◌}
use pumpkin_os.Prelude.{ltb, leb, ◌==◌, ◌&&◌, if◌then◌else◌, arith}
use pumpkin_os.Prelude.{Bool-cases, inl, inr, ltb→le}
use pumpkin_os.Pmm.{Pmm, frame_mark_used, frame_mark_free, mark_frames, cap_end, reserve_range}
use pumpkin_os.Pmm.{free_range}
use pumpkin_os.Pmm.Bitmap.{used, IsValid, used-mark_used, used-mark_free}
use pumpkin_os.Pmm.Count.{total-mark_used, total-mark_free, outside-mark_used, outside-mark_free}
use pumpkin_os.Pmm.Count.{mark_used-IsValid, mark_free-IsValid}

-- `mark_used` and `mark_free` at any frame, out of range included.
mark_used_any :
    (f g : ℕ) (s : Pmm)
    → IsValid s
    → used (frame_mark_used f s) g ≡ (if ltb f s.total_frames && g == f then 1 else used s g)
mark_used_any f g s v = elim (Bool-cases (ltb f s.total_frames)) [
  | inl h ↦ ground (arith, used-mark_used f g s v)
  | inr h ↦ rw (outside-mark_used f s (ltb→le _ _ h), h) refl
]

mark_free_any :
    (f g : ℕ) (s : Pmm)
    → IsValid s
    → used (frame_mark_free f s) g ≡ (if ltb f s.total_frames && g == f then 0 else used s g)
mark_free_any f g s v = elim (Bool-cases (ltb f s.total_frames)) [
  | inl h ↦ ground (arith, used-mark_free f g s v)
  | inr h ↦ rw (outside-mark_free f s (ltb→le _ _ h), h) refl
]

-- A loop that marks the frames from `f` to `f + n` as `v`, for a `mark` of one frame.
module _ (mark : ℕ → Pmm → Pmm) (v : ℕ)
    (one : (f g : ℕ) (s : Pmm)
      → IsValid s
      → used (mark f s) g ≡ (if ltb f s.total_frames && g == f then v else used s g))
    (same : (f : ℕ) (s : Pmm) → (mark f s).total_frames ≡ s.total_frames)
    (keep : (f : ℕ) (s : Pmm) → IsValid s → IsValid (mark f s)) where
  mark_frames-IsValid : (n f : ℕ) (s : Pmm) → IsValid s → IsValid (mark_frames mark n f s)
  unfolding mark_frames
  mark_frames-IsValid zero f s i = i
  mark_frames-IsValid (suc n) f s i = mark_frames-IsValid n (f + 1) (mark f s) (keep f s i)

  total-mark_frames : (n f : ℕ) (s : Pmm) → (mark_frames mark n f s).total_frames ≡ s.total_frames
  unfolding mark_frames
  total-mark_frames zero f s = refl
  total-mark_frames (suc n) f s = total-mark_frames n (f + 1) (mark f s) ∙ same f s

  used-mark_frames :
      (n f g : ℕ) (s : Pmm)
      → IsValid s
      → used (mark_frames mark n f s) g
        ≡ (if leb f g && ltb g (f + n) && ltb g s.total_frames then v else used s g)
  unfolding mark_frames
  used-mark_frames zero f g s i = ground arith
  used-mark_frames (suc n) f g s i =
      ground (arith, used-mark_frames n (f + 1) g (mark f s) (keep f s i), one f g s i, same f s)

-- `reserve_range` marks the frames that touch [start, end) below 4 GiB, and no others.
pub used-reserve_range :
    (start end g : ℕ) (s : Pmm)
    → IsValid s
    → used (reserve_range start end s) g ≡ (
        if ltb start (cap_end end)
          && ltb (g * 4096) (cap_end end)
          && ltb start (g * 4096 + 4096)
          && ltb g s.total_frames
        then 1
        else used s g)
unfolding reserve_range
used-reserve_range start end g s i = ground (
  arith,
  used-mark_frames frame_mark_used 1 mark_used_any total-mark_used mark_used-IsValid
      ((cap_end end + 0xFFF) / 2 ^ 12 % 2 ^ 32 - start / 2 ^ 12 % 2 ^ 32) (start / 2 ^ 12 % 2 ^ 32)
      g s i,
)

-- `free_range` frees the frames that lie wholly in [start, end) below 4 GiB, and no others.
pub used-free_range :
    (start end g : ℕ) (s : Pmm)
    → IsValid s
    → used (free_range start end s) g ≡ (
        if leb start (g * 4096) && leb (g * 4096 + 4096) (cap_end end) && ltb g s.total_frames
        then 0
        else used s g)
unfolding free_range
used-free_range start end g s i = ground (
  arith,
  used-mark_frames frame_mark_free 0 mark_free_any total-mark_free mark_free-IsValid
      (cap_end end / 2 ^ 12 % 2 ^ 32 - (start + 0xFFF) / 2 ^ 12 % 2 ^ 32)
      ((start + 0xFFF) / 2 ^ 12 % 2 ^ 32) g s i,
)

pub reserve_range-IsValid :
    (start end : ℕ) (s : Pmm) → IsValid s → IsValid (reserve_range start end s)
unfolding reserve_range
reserve_range-IsValid start end s i = elim (Bool-cases (leb (cap_end end) start)) [
  | inl h ↦ rw h i
  | inr h ↦ rw h (
      mark_frames-IsValid frame_mark_used 1 mark_used_any total-mark_used mark_used-IsValid
        ((cap_end end + 4095) / 2 ^ 12 % 2 ^ 32 - start / 2 ^ 12 % 2 ^ 32) (start / 2 ^ 12 % 2 ^ 32)
        s i)
]

pub free_range-IsValid : (start end : ℕ) (s : Pmm) → IsValid s → IsValid (free_range start end s)
unfolding free_range
free_range-IsValid start end s i = elim (Bool-cases (leb (cap_end end) start)) [
  | inl h ↦ rw h i
  | inr h ↦ rw h (
      mark_frames-IsValid frame_mark_free 0 mark_free_any total-mark_free mark_free-IsValid
        (cap_end end / 2 ^ 12 % 2 ^ 32 - (start + 4095) / 2 ^ 12 % 2 ^ 32)
        ((start + 4095) / 2 ^ 12 % 2 ^ 32) s i)
]

pub total-reserve_range :
    (start end : ℕ) (s : Pmm) → (reserve_range start end s).total_frames ≡ s.total_frames
unfolding reserve_range
total-reserve_range start end s = ground (
  arith,
  total-mark_frames frame_mark_used 1 mark_used_any total-mark_used mark_used-IsValid
      ((cap_end end + 0xFFF) / 2 ^ 12 % 2 ^ 32 - start / 2 ^ 12 % 2 ^ 32) (start / 2 ^ 12 % 2 ^ 32)
      s,
)

pub total-free_range :
    (start end : ℕ) (s : Pmm) → (free_range start end s).total_frames ≡ s.total_frames
unfolding free_range
total-free_range start end s = ground (
  arith,
  total-mark_frames frame_mark_free 0 mark_free_any total-mark_free mark_free-IsValid
      (cap_end end / 2 ^ 12 % 2 ^ 32 - (start + 0xFFF) / 2 ^ 12 % 2 ^ 32)
      ((start + 0xFFF) / 2 ^ 12 % 2 ^ 32) s,
)
