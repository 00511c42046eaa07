-- ===== src/Pmm/Grants.antt =====
-- `pmm_alloc_frame` of mm/pmm.c, in terms of which frames are in use before and after.
use pumpkin_os.Prelude.{ℕ, ◌+◌, ◌*◌, ◌≡◌, refl, ◌==◌, if◌then◌else◌, arith}
use pumpkin_os.Pmm.{Pmm, frame_mark_used, pmm_alloc_frame}
use pumpkin_os.Pmm.Bitmap.{used, IsValid, used-mark_used}
use pumpkin_os.Pmm.Count.{mark_used-IsValid, total-mark_used, counter-mark_used, count_used-le}
use pumpkin_os.Pmm.Alloc.{IsFirstFree, AllUsed, taken, full, pmm_alloc_frame-Allocates}

-- `t` is `s` with frame `f` in use as well.
pub record Adds (f : ℕ) (s t : Pmm) : Type 0 where
  pub valid : IsValid t
  pub frames : (g : ℕ) → used t g ≡ (if g == f then 1 else used s g)
  pub size : t.total_frames ≡ s.total_frames
  pub counter : t.used_frames ≡ s.used_frames + 1

-- A call gives out the lowest free frame, or there is none.
pub data Grants (s : Pmm) (r : ℕ × Pmm) : Type 0 where
  granted : (f : ℕ) → IsFirstFree s 0 f → r.0 ≡ f * 4096 → Adds f s r.1 → Grants s r
  exhausted : AllUsed s 0 s.total_frames → r ≡ (0, s) → Grants s r

frame_mark_used-Adds :
    (f : ℕ) (s : Pmm) → IsValid s → IsFirstFree s 0 f → Adds f s (frame_mark_used f s)
frame_mark_used-Adds f s v first = record {
  valid = mark_used-IsValid f s v;
  frames = λ g. used-mark_used f g s v first.within;
  size = total-mark_used f s;
  counter = ground (
    arith,
    counter-mark_used f s first.within,
    first.free,
    v.counted,
    v.bounded,
    count_used-le s.bitmap s.total_frames,
  );
}

-- On a valid state `pmm_alloc_frame` either returns the address of the lowest free frame, after
-- which the state is valid, that frame is in use, every other frame is as before, and the counter is
-- one higher; or every frame is in use, and it returns 0 and leaves the state alone.
pub pmm_alloc_frame-Grants : (s : Pmm) → IsValid s → Grants s (pmm_alloc_frame s)
pmm_alloc_frame-Grants s v = elim (pmm_alloc_frame-Allocates s v) [
  | taken f first e ↦ granted f first (rw e refl) (rw e (frame_mark_used-Adds f s v first))
  | full all e ↦ exhausted all e
]
