-- ===== src/Pmm/Init.antt =====
-- The passes of `pmm_init` of mm/pmm.c over the E820 map.
use pumpkin_os.Prelude.{ℕ, ◌+◌, ◌*◌, ◌≤◌, ◌<◌, ◌≡◌, refl, ◌∙◌}
use pumpkin_os.Prelude.{ltb, leb, ◌&&◌, ◌||◌, not, Bool, false, if◌then◌else◌, arith, inl, inr}
use pumpkin_os.Prelude.{Bool-cases, List, [], ◌∷◌}
use pumpkin_os.Pmm.{
  E820Entry, Pmm, four_gib, cap_end, entry_end, is_skipped, highest_address, raise_max, free_entry,
}
use pumpkin_os.Pmm.{free_usable}
use pumpkin_os.Pmm.Bitmap.{used, IsValid}
use pumpkin_os.Pmm.Range.{used-free_range, free_range-IsValid}
use pumpkin_os.Pmm.Range.{total-free_range}

-- Frame `g` lies wholly in a usable entry of the map, below 4 GiB.
abbrev pub frees : E820Entry → ℕ → Bool
frees e g =
    not (is_skipped e) && leb e.base (g * 4096) && leb (g * 4096 + 4096) (cap_end (entry_end e))

pub in_usable : List E820Entry → ℕ → Bool
in_usable [] g = false
in_usable (e ∷ es) g = frees e g || in_usable es g

-- Frame `g` touches [start, end).
abbrev pub touches : ℕ → ℕ → ℕ → Bool
touches start end g = ltb start end && ltb (g * 4096) end && ltb start (g * 4096 + 4096)

raise_max-le : (m : ℕ) (e : E820Entry) → m ≤ four_gib → raise_max m e ≤ four_gib
unfolding raise_max
raise_max-le m e h = ground arith

pub highest_address-le :
    (es : List E820Entry) (m : ℕ) → m ≤ four_gib → highest_address es m ≤ four_gib
unfolding highest_address
highest_address-le [] m h = h
highest_address-le (e ∷ es) m h = highest_address-le es (raise_max m e) (raise_max-le m e h)

total-free_entry : (e : E820Entry) (s : Pmm) → (free_entry e s).total_frames ≡ s.total_frames
unfolding free_entry
total-free_entry e s = elim (Bool-cases (is_skipped e)) [
  | inl skip ↦ rw skip
  | inr use_it ↦ rw use_it (total-free_range e.base (entry_end e) s)
]

free_entry-IsValid : (e : E820Entry) (s : Pmm) → IsValid s → IsValid (free_entry e s)
unfolding free_entry
free_entry-IsValid e s v = elim (Bool-cases (is_skipped e)) [
  | inl skip ↦ rw skip v
  | inr use_it ↦ rw use_it (free_range-IsValid e.base (entry_end e) s v)
]

used-free_entry :
    (e : E820Entry) (s : Pmm) (g : ℕ)
    → IsValid s
    → g < s.total_frames
    → used (free_entry e s) g ≡ (if frees e g then 0 else used s g)
unfolding free_entry
used-free_entry e s g v h = elim (Bool-cases (is_skipped e)) [
  | inl skip ↦ ground arith
  | inr use_it ↦ ground (arith, used-free_range e.base (entry_end e) g s v)
]

pub total-free_usable :
    (es : List E820Entry) (s : Pmm) → (free_usable es s).total_frames ≡ s.total_frames
unfolding free_usable
total-free_usable [] s = refl
total-free_usable (e ∷ es) s = total-free_usable es (free_entry e s) ∙ total-free_entry e s

pub free_usable-IsValid : (es : List E820Entry) (s : Pmm) → IsValid s → IsValid (free_usable es s)
unfolding free_usable
free_usable-IsValid [] s v = v
free_usable-IsValid (e ∷ es) s v =
    free_usable-IsValid es (free_entry e s) (free_entry-IsValid e s v)

pub used-free_usable :
    (es : List E820Entry) (s : Pmm) (g : ℕ)
    → IsValid s
    → g < s.total_frames
    → used (free_usable es s) g ≡ (if in_usable es g then 0 else used s g)
unfolding free_usable in_usable
used-free_usable [] s g v h = refl
used-free_usable (e ∷ es) s g v h = ground (
  arith,
  used-free_usable es (free_entry e s) g (free_entry-IsValid e s v),
  used-free_entry e s g v h,
  total-free_entry e s,
)
