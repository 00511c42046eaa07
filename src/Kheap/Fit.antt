-- ===== src/Kheap/Fit.antt =====
-- `split` and the first-fit search of `kmalloc` in mm/kheap.c.
use pumpkin_os.Prelude.{ℕ, ◌+◌, ◌%◌, ◌^◌, ◌≤◌, ◌<◌, ◌≡◌, refl, arith, List, [], ◌∷◌, ◌++◌, ap, ◌∙◌}
use pumpkin_os.Prelude.{
  Bool, true, false, not, ◌&&◌, if◌then◌else◌, Bool-cases, inl, inr, subst, leb,
}
use pumpkin_os.Prelude.{Option, none, some, Option-cases}
use pumpkin_os.Kheap.{Block, carve, first_fit}
use pumpkin_os.Kheap.Chain.{Chain, IsSeparated, allocated, Chain-le}

-- `b` can serve a request for `need` bytes.
abbrev pub fits : ℕ → Block → Bool
fits need b = not b.used && leb need b.size

fits-le : (need : ℕ) (b : Block) → fits need b ≡ true → need ≤ b.size
fits-le need b h = ground arith

fits-free : (need : ℕ) (b : Block) → fits need b ≡ true → b.used ≡ false
fits-free need b h = ground arith

-- What `first_fit` does: it passes the blocks that do not fit, and carves the first that does.
pub data Fit (need : ℕ) : List Block → ℕ → List Block → Type 0 where
  here :
      {b : Block} {r out : List Block} {p : ℕ}
      → fits need b ≡ true
      → p ≡ b.addr + 16
      → out ≡ carve b need ++ r
      → Fit need (b ∷ r) p out
  there :
      {b : Block} {r r' out : List Block} {p : ℕ}
      → fits need b ≡ false
      → Fit need r p r'
      → out ≡ b ∷ r'
      → Fit need (b ∷ r) p out

pub first_fit-Fit :
    (need : ℕ) (xs : List Block) (p : ℕ) (out : List Block)
    → first_fit need xs ≡ some (p, out)
    → Fit need xs p out
unfolding first_fit
first_fit-Fit need [] p out e = absurd (cc)
first_fit-Fit need (b ∷ r) p out e = elim (Bool-cases (fits need b)) [
  | inl yes_it ↦
      let e' : ◌≡◌ {A = Option (ℕ × List Block)} (some (b.addr + 16, carve b need ++ r))
          (some (p, out)) =
        rw yes_it at e in
      here yes_it (ground arith) (ground arith)
  | inr pass ↦ elim (Option-cases (first_fit need r)) [
    | inl stop ↦
        let e' : ◌≡◌ {A = Option (ℕ × List Block)} none (some (p, out)) = rw (pass, stop) at e in
        absurd (cc)
    | inr ((q, r'), found) ↦
        let e' : ◌≡◌ {A = Option (ℕ × List Block)} (some (q, b ∷ r')) (some (p, out)) =
          rw (pass, found) at e in
        there pass (first_fit-Fit need r p r' (found ∙ ground arith)) (ground arith)
  ]
]

-- Every block is in use or too small.
abbrev pub NoneFits : ℕ → List Block → Type 0
NoneFits need [] = Unit
NoneFits need (b ∷ r) = (fits need b ≡ false) × NoneFits need r

pub first_fit-NoneFits : (need : ℕ) (xs : List Block) → first_fit need xs ≡ none → NoneFits need xs
unfolding first_fit
first_fit-NoneFits need [] e = tt
first_fit-NoneFits need (b ∷ r) e = elim (Bool-cases (fits need b)) [
  | inl hit ↦ absurd (ground arith)
  | inr pass ↦ (pass, first_fit-NoneFits need r (ground arith))
]

carve-Chain :
    (a e need : ℕ) (b : Block) (r : List Block)
    → need ≤ b.size
    → need % 8 ≡ 0
    → b.size < 2 ^ 31
    → Chain a (b ∷ r) e
    → Chain a (carve b need ++ r) e
unfolding carve
carve-Chain a e need b r le al small (q, s, c) =
    elim (Bool-cases (leb ((need + 16 + 8) % 2 ^ 32) b.size)) [
      | inl big ↦
          rw big (q, al, (omega arith, ground arith, subst (λ k. Chain k r e) (ground arith) c))
      | inr exact ↦ rw exact (q, s, c)
    ]

pub Fit-Chain :
    {need p : ℕ} {xs out : List Block} (a e : ℕ)
    → Fit need xs p out
    → need % 8 ≡ 0
    → e < a + 2 ^ 31
    → Chain a xs e
    → Chain a out e
Fit-Chain {need} a e (here {b} {r} hit q eq) al small c =
    let (at_a, al', c') = c in
    let le = Chain-le (a + 16 + b.size) e r c' in
    rw eq (carve-Chain a e need b r (fits-le need b hit) al (omega arith) c)
Fit-Chain a e (there {b} {r} pass f eq) al small (q, s, c) =
    rw eq (q, s, Fit-Chain (a + 16 + b.size) e f al (omega arith) c)

used_next : (was_free : Bool) → was_free && false ≡ false
used_next true = refl
used_next false = refl

IsSeparated-weaken : (p : Bool) (xs : List Block) → IsSeparated p xs → IsSeparated false xs
IsSeparated-weaken p [] s = tt
IsSeparated-weaken p (b ∷ r) (s, t) = (refl, t)

carve-IsSeparated :
    (was_free : Bool) (need : ℕ) (b : Block) (r : List Block)
    → b.used ≡ false
    → IsSeparated was_free (b ∷ r)
    → IsSeparated was_free (carve b need ++ r)
unfolding carve
carve-IsSeparated was_free need b r free (s, t) =
    let t' : IsSeparated true r = rw free at t in
    elim (Bool-cases (leb ((need + 16 + 8) % 2 ^ 32) b.size)) [
      | inl big ↦ rw big (used_next was_free, (refl, t'))
      | inr exact ↦ rw exact (used_next was_free, IsSeparated-weaken true r t')
    ]

pub Fit-IsSeparated :
    {need p : ℕ} {xs out : List Block} (was_free : Bool)
    → Fit need xs p out
    → IsSeparated was_free xs
    → IsSeparated was_free out
Fit-IsSeparated {need} was_free (here {b} {r} hit q eq) s =
    rw eq (carve-IsSeparated was_free need b r (fits-free need b hit) s)
Fit-IsSeparated was_free (there {b} {r} pass f eq) (s, t) =
    rw eq (s, Fit-IsSeparated (not b.used) f t)

cons_if :
    (u : Bool) (b : Block) (l before rest : List Block)
    → l ≡ before ++ rest
    → (if u then b ∷ l else l) ≡ (if u then b ∷ before else before) ++ rest
cons_if true b l before rest e = ap (λ x. b ∷ x) e
cons_if false b l before rest e = e

-- One block more is in use, and it is the one of the pointer.
pub record Takes (need : ℕ) (xs : List Block) (p : ℕ) (out : List Block) : Type 0 where
  pub before : List Block
  pub taken : Block
  pub after : List Block
  pub old : allocated xs ≡ before ++ after
  pub new : allocated out ≡ before ++ taken ∷ after
  pub at : taken.addr + 16 ≡ p
  pub enough : need ≤ taken.size

allocated-carve :
    (need : ℕ) (b : Block) (r : List Block)
    → need ≤ b.size
    → (t : Block) × (allocated (carve b need ++ r) ≡ t ∷ allocated r)
      × (t.addr ≡ b.addr)
      × (need ≤ t.size)
unfolding carve
allocated-carve need b r le = elim (Bool-cases (leb ((need + 16 + 8) % 2 ^ 32) b.size)) [
  | inl big ↦ rw big (record b { size = need; used = true }, refl, refl, omega arith)
  | inr exact ↦ rw exact (record b { used = true }, refl, refl, le)
]

pub Fit-Takes : {need p : ℕ} {xs out : List Block} → Fit need xs p out → Takes need xs p out
Fit-Takes {need} (here {b} {r} hit q eq) =
    let (t, new, same, le) = allocated-carve need b r (fits-le need b hit) in
    record {
      before = [];
      taken = t;
      after = allocated r;
      old = rw (fits-free need b hit) refl;
      new = rw eq new;
      at = omega arith;
      enough = le;
    }
Fit-Takes (there {b} {r} {r'} pass f eq) =
    let t = Fit-Takes f in
    record {
      before = if b.used then b ∷ t.before else t.before;
      taken = t.taken;
      after = t.after;
      old = cons_if b.used b (allocated r) t.before t.after t.old;
      new = ap allocated eq ∙ cons_if b.used b (allocated r') t.before (t.taken ∷ t.after) t.new;
      at = t.at;
      enough = t.enough;
    }

-- The pointer is aligned, and its payload lies in the region.
pub Fit-bounds :
    {need p : ℕ} {xs out : List Block} (a e : ℕ)
    → Fit need xs p out
    → a % 8 ≡ 0
    → Chain a xs e
    → (p % 8 ≡ 0) × (a + 16 ≤ p) × (p + need ≤ e)
Fit-bounds {need} a e (here {b} {r} hit q eq) al (at_a, s, c) =
    omega (arith, fits-le need b hit, Chain-le (a + 16 + b.size) e r c)
Fit-bounds a e (there {b} {r} pass f eq) al (at_a, s, c) =
    omega (arith, Fit-bounds (a + 16 + b.size) e f (omega arith) c)
