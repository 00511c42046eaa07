-- ===== src/Pmm/Room.antt =====
-- The two passes of `pmm_init` of mm/pmm.c that look for memory: the highest usable address, and room
-- for the bitmap.
use pumpkin_os.Prelude.{
  ℕ, ◌+◌, ◌%◌, ◌^◌, ◌≤◌, ◌<◌, ◌≡◌, refl, ◌∙◌, sym, ◌≢◌, Bool-cases, inl, inr, ◌⊎◌, true, false,
  if◌then◌else◌, ltb, arith, subst, List, [], ◌∷◌,
}
use pumpkin_os.Pmm.{
  E820Entry, cap_end, entry_end, spot_base, is_skipped, raise_max, highest_address, fits_bitmap,
  find_bitmap_addr,
}

-- The entry `e` is usable, starts below 4 GiB, and holds [addr, addr + bytes) above 1 MiB.
pub record Holds (addr bytes : ℕ) (e : E820Entry) : Type 0 where
  pub usable : is_skipped e ≡ false
  pub from : e.base ≤ addr
  pub above : 0x100000 ≤ addr
  pub inside : addr < cap_end (entry_end e)
  pub upto : addr + bytes ≤ cap_end (entry_end e)

abbrev pub Some : (E820Entry → Type 0) → List E820Entry → Type 0
Some P [] = ⊥
Some P (e ∷ es) = P e ⊎ Some P es

abbrev pub Every : (E820Entry → Type 0) → List E820Entry → Type 0
Every P [] = Unit
Every P (e ∷ es) = P e × Every P es

below_4_gib : (e : E820Entry) → is_skipped e ≡ false → e.base < 2 ^ 32
unfolding is_skipped
below_4_gib e h = ground arith

fits_bitmap-Holds :
    (bytes : ℕ) (e : E820Entry) → fits_bitmap bytes e ≡ true → Holds (spot_base e % 2 ^ 32) bytes e
unfolding fits_bitmap
fits_bitmap-Holds bytes e h = elim (Bool-cases (is_skipped e)) [
  | inl skip ↦ let f : false ≡ true = rw skip at h in cc
  | inr use_it ↦ ground (arith, below_4_gib e use_it)
]

Holds-fits_bitmap :
    (addr bytes : ℕ) (e : E820Entry)
    → Holds addr bytes e
    → (fits_bitmap bytes e ≡ true) × (spot_base e % 2 ^ 32 ≢ 0)
unfolding fits_bitmap
Holds-fits_bitmap addr bytes e h =
    let b = below_4_gib e h.usable in
    (rw h.usable (ground (arith, h.from, h.above, h.inside, h.upto)), λ z. ground (arith, b, z))

pub find_bitmap_addr_from :
    (bytes addr : ℕ) (es : List E820Entry)
    → addr ≢ 0
    → find_bitmap_addr bytes es ≡ addr
    → Some (Holds addr bytes) es
unfolding find_bitmap_addr
find_bitmap_addr_from bytes addr [] ne e = absurd (ne (sym e))
find_bitmap_addr_from bytes addr (x ∷ es) ne e = elim (Bool-cases (fits_bitmap bytes x)) [
  | inl fits ↦ inl (subst (λ a. Holds a bytes x) (rw fits at e) (fits_bitmap-Holds bytes x fits))
  | inr no_room ↦ inr (find_bitmap_addr_from bytes addr es ne (rw no_room at e))
]

-- Where pass 2 finds no address, no entry has room at any address.
pub find_bitmap_addr_none :
    (bytes addr : ℕ) (es : List E820Entry)
    → find_bitmap_addr bytes es ≡ 0
    → Some (Holds addr bytes) es
    → ⊥
unfolding find_bitmap_addr
find_bitmap_addr_none bytes addr [] e h = h
find_bitmap_addr_none bytes addr (x ∷ es) e (inl h) =
    let (fits, ne) = Holds-fits_bitmap addr bytes x h in ne (rw fits at e)
find_bitmap_addr_none bytes addr (x ∷ es) e (inr more) = elim (Bool-cases (fits_bitmap bytes x)) [
  | inl fits ↦
      let h = fits_bitmap-Holds bytes x fits in
      (Holds-fits_bitmap (spot_base x % 2 ^ 32) bytes x h).1 (rw fits at e)
  | inr no_room ↦ find_bitmap_addr_none bytes addr es (rw no_room at e) more
]

-- A usable entry that starts below 4 GiB ends at `m`, and one that does ends at `m` at most.
abbrev pub EndsAt : ℕ → E820Entry → Type 0
EndsAt m e = (is_skipped e ≡ false) × (cap_end (entry_end e) ≡ m)

abbrev pub EndsBelow : ℕ → E820Entry → Type 0
EndsBelow m e = is_skipped e ≡ false → cap_end (entry_end e) ≤ m

-- The highest end of a usable entry that starts below 4 GiB, 0 for none.
pub record IsTop (es : List E820Entry) (m : ℕ) : Type 0 where
  pub reached : (m ≡ 0) ⊎ Some (EndsAt m) es
  pub bounds : Every (EndsBelow m) es

raise_max_lem :
    (m : ℕ) (e : E820Entry)
    → (m ≤ raise_max m e)
      × EndsBelow (raise_max m e) e
      × ((raise_max m e ≡ m) ⊎ EndsAt (raise_max m e) e)
unfolding raise_max
raise_max_lem m e = elim (Bool-cases (is_skipped e)) [
  | inl skip ↦ rw skip (omega arith, λ f. absurd (cc f), inl refl)
  | inr use_it ↦ rw use_it (raised (cap_end (entry_end e)))
]
  where
    raised :
        (end : ℕ)
        → (m ≤ (if ltb m end then end else m))
          × (false ≡ false → end ≤ (if ltb m end then end else m))
          × (((if ltb m end then end else m) ≡ m)
              ⊎ ((false ≡ false) × (end ≡ (if ltb m end then end else m))))
    raised end = elim (Bool-cases (ltb m end)) [
      | inl more ↦ rw more (ground arith, λ _. omega arith, inr (refl, refl))
      | inr less ↦ rw less (omega arith, λ _. ground arith, inl refl)
    ]

pub highest_address_lem :
    (es : List E820Entry) (m : ℕ)
    → (m ≤ highest_address es m)
      × ((highest_address es m ≡ m) ⊎ Some (EndsAt (highest_address es m)) es)
      × Every (EndsBelow (highest_address es m)) es
unfolding highest_address
highest_address_lem [] m = (omega arith, inl refl, tt)
highest_address_lem (e ∷ es) m =
    let (up, below, here) = raise_max_lem m e in
    let (ups, theirs, all) = highest_address_lem es (raise_max m e) in
    let top = highest_address es (raise_max m e) in
    (
      omega arith,
      elim theirs [
        | inr some ↦ inr (inr some)
        | inl same ↦ elim here [
          | inl old ↦ inl (same ∙ old)
          | inr (use_it, at) ↦ inr (inl (use_it, at ∙ sym same))
        ]
      ],
      (λ use_it. omega (arith, below use_it), all),
    )
