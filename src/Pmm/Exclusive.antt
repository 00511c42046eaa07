-- ===== src/Pmm/Exclusive.antt =====
-- Sequences of calls of mm/pmm.c: a frame handed out is not handed out again until it is freed.
use pumpkin_os.Prelude.{ℕ, ◌+◌, ◌*◌, ◌/◌, ◌^◌, ◌<◌, ◌≡◌, ◌≢◌, refl, ap, ◌∙◌, sym}
use pumpkin_os.Prelude.{arith, leb, Bool-cases, inl, inr, leb→le}
use pumpkin_os.Pmm.{
  Pmm, frame_mark_used, frame_mark_free, pmm_alloc_frame, pmm_free_frame, pmm_reserve,
}
use pumpkin_os.Pmm.Bitmap.{used, count_used, IsValid, used-mark_used, used-mark_free}
use pumpkin_os.Pmm.Count.{
  mark_used-IsValid, mark_free-IsValid, total-mark_used, total-mark_free, count_used_ext,
  outside-mark_free,
}
use pumpkin_os.Pmm.Range.{used-reserve_range, reserve_range-IsValid}
use pumpkin_os.Pmm.Alloc.{taken, full, pmm_alloc_frame-Allocates}

-- The calls that the rest of the kernel makes, none of which frees frame `g`.
pub data Step (g : ℕ) : Pmm → Pmm → Type 0 where
  alloc : (s : Pmm) → Step g s (pmm_alloc_frame s).1
  free : (s : Pmm) (addr : ℕ) → addr / 4096 ≢ g → Step g s (pmm_free_frame addr s)
  reserve : (s : Pmm) (phys bytes : ℕ) → Step g s (pmm_reserve phys bytes s)

pub data Steps (g : ℕ) (s : Pmm) : Pmm → Type 0 where
  here : Steps g s s
  next : {t u : Pmm} → Steps g s t → Step g t u → Steps g s u

pub pmm_alloc_frame-IsValid : (s : Pmm) → IsValid s → IsValid (pmm_alloc_frame s).1
pmm_alloc_frame-IsValid s v = elim (pmm_alloc_frame-Allocates s v) [
  | taken f first e ↦ rw e (mark_used-IsValid f s v)
  | full all e ↦ rw e v
]

pub pmm_free_frame-IsValid : (addr : ℕ) (s : Pmm) → IsValid s → IsValid (pmm_free_frame addr s)
unfolding pmm_free_frame
pmm_free_frame-IsValid addr s v = mark_free-IsValid (addr / 2 ^ 12) s v

pub pmm_reserve-IsValid :
    (phys bytes : ℕ) (s : Pmm) → IsValid s → IsValid (pmm_reserve phys bytes s)
unfolding pmm_reserve
pmm_reserve-IsValid phys bytes s v = reserve_range-IsValid phys (phys + bytes) s v

-- An allocation leaves the used frames used.
pub alloc-keeps : (s : Pmm) (g : ℕ) → IsValid s → used s g ≡ 1 → used (pmm_alloc_frame s).1 g ≡ 1
alloc-keeps s g v h = elim (pmm_alloc_frame-Allocates s v) [
  | taken f first e ↦ rw e (ground (arith, used-mark_used f g s v first.within))
  | full all e ↦ rw e h
]

pub free-keeps :
    (addr : ℕ) (s : Pmm) (g : ℕ)
    → IsValid s
    → addr / 4096 ≢ g
    → used (pmm_free_frame addr s) g ≡ used s g
unfolding pmm_free_frame
free-keeps addr s g v ne = elim (Bool-cases (leb s.total_frames (addr / 4096))) [
  | inl out ↦ rw (outside-mark_free (addr / 4096) s (leb→le _ _ out))
  | inr inside ↦ ground (arith, used-mark_free (addr / 4096) g s v)
]

pub reserve-keeps :
    (phys bytes : ℕ) (s : Pmm) (g : ℕ)
    → IsValid s
    → used s g ≡ 1
    → used (pmm_reserve phys bytes s) g ≡ 1
unfolding pmm_reserve
reserve-keeps phys bytes s g v h = ground (arith, used-reserve_range phys (phys + bytes) g s v)

Step-keeps :
    {g : ℕ} {s t : Pmm} → Step g s t → IsValid s → used s g ≡ 1 → IsValid t × (used t g ≡ 1)
Step-keeps {g} (alloc s) v h = (pmm_alloc_frame-IsValid s v, alloc-keeps s g v h)
Step-keeps {g} (free s addr ne) v h =
    (pmm_free_frame-IsValid addr s v, free-keeps addr s g v ne ∙ h)
Step-keeps {g} (reserve s phys bytes) v h =
    (pmm_reserve-IsValid phys bytes s v, reserve-keeps phys bytes s g v h)

Steps-keeps :
    {g : ℕ} {s t : Pmm} → Steps g s t → IsValid s → used s g ≡ 1 → IsValid t × (used t g ≡ 1)
Steps-keeps here v h = (v, h)
Steps-keeps (next r st) v h = let (v', h') = Steps-keeps r v h in Step-keeps st v' h'

pmm_free_frame_lem : (addr : ℕ) (s : Pmm) → pmm_free_frame addr s ≡ frame_mark_free (addr / 4096) s
unfolding pmm_free_frame
pmm_free_frame_lem addr s = refl

mul-div : (f : ℕ) → f * 4096 / 4096 ≡ f
mul-div f = omega arith

alloc-ne : (s : Pmm) (g : ℕ) → IsValid s → g ≢ 0 → used s g ≡ 1 → (pmm_alloc_frame s).0 ≢ g * 4096
alloc-ne s g v pos h = elim (pmm_alloc_frame-Allocates s v) [
  | taken f first e ↦
      rw e (λ same. let eq : f ≡ g = omega arith in absurd (omega (arith, h, rw eq at first.free)))
  | full all e ↦ rw e (λ same. pos (omega arith))
]

-- From a valid state, once `pmm_alloc_frame` has returned the address of a frame other than 0, no
-- later call returns it again, whatever allocations, reservations and frees of other frames come
-- between.
pub alloc_exclusive :
    (s t : Pmm) (g : ℕ)
    → IsValid s
    → g ≢ 0
    → (pmm_alloc_frame s).0 ≡ g * 4096
    → Steps g (pmm_alloc_frame s).1 t
    → (pmm_alloc_frame t).0 ≢ g * 4096
alloc_exclusive s t g v pos e r = elim (pmm_alloc_frame-Allocates s v) [
  | taken f first q ↦
      let eq : f ≡ g = omega (arith, e, ap (λ (x : ℕ × Pmm). x.0) q) in
      let got : used (pmm_alloc_frame s).1 g ≡ 1 =
        rw q (ground (arith, used-mark_used f g s v first.within)) in
      let (v', h) = Steps-keeps r (pmm_alloc_frame-IsValid s v) got in alloc-ne t g v' pos h
  | full all q ↦ absurd (pos (omega (arith, e, ap (λ (x : ℕ × Pmm). x.0) q)))
]

free-mark :
    (s : Pmm) (f : ℕ)
    → IsValid s
    → f < s.total_frames
    → used s f ≡ 0
    → ((g : ℕ) → used (frame_mark_free f (frame_mark_used f s)) g ≡ used s g)
      × ((frame_mark_free f (frame_mark_used f s)).used_frames ≡ s.used_frames)
free-mark s f v lt was_free =
    let s' = frame_mark_used f s in
    let v' = mark_used-IsValid f s v in
    let same : (g : ℕ) → used (frame_mark_free f s') g ≡ used s g = λ g.
      ground (arith, used-mark_free f g s' v', used-mark_used f g s v lt, total-mark_used f s) in
    let counted : count_used (frame_mark_free f s').bitmap s.total_frames ≡ s.used_frames =
      count_used_ext s.bitmap (frame_mark_free f s').bitmap s.total_frames same ∙ sym v.counted in
    (
      same,
      ground (
        arith,
        counted,
        (mark_free-IsValid f s' v').counted,
        total-mark_free f s',
        total-mark_used f s,
      ),
    )

-- From a valid state where an allocation returns an address other than 0, freeing that address
-- gives every frame and the counter of used frames their old value.
free-alloc :
    (s : Pmm)
    → IsValid s
    → (pmm_alloc_frame s).0 ≢ 0
    → let (addr, s') = pmm_alloc_frame s in
      let t = pmm_free_frame addr s' in
      ((g : ℕ) → used t g ≡ used s g) × (t.used_frames ≡ s.used_frames)
free-alloc s v ne = elim (pmm_alloc_frame-Allocates s v) [
  | taken f first q ↦
      rw (q, pmm_free_frame_lem (f * 4096) (frame_mark_used f s), mul-div f)
        (free-mark s f v first.within first.free)
  | full all q ↦ absurd (ne (ap (λ (x : ℕ × Pmm). x.0) q))
]
