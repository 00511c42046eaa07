-- ===== src/Kheap/Coalesce.antt =====
-- `coalesce` and `kfree` of mm/kheap.c.
use pumpkin_os.Prelude.{ℕ, ◌+◌, ◌-◌, ◌%◌, ◌^◌, ◌≤◌, ◌<◌, ◌≡◌, ◌≢◌, refl, arith, List, [], ◌∷◌, ◌∙◌}
use pumpkin_os.Prelude.{
  Bool, false, not, ◌&&◌, if◌then◌else◌, Bool-cases, inl, inr, ◌==◌, ≢→==, subst, ==→≡, ==→≢,
  Option, some, sym, ap, true, ◌⊎◌,
}
use pumpkin_os.Kheap.{Block, Heap, absorb, coalesce_from, coalesce, mark_free, kfree}
use pumpkin_os.Kheap.Chain.{Chain, IsSeparated, allocated, IsValid, Chain-le}

coalesce_from-Chain :
    (a e : ℕ) (b : Block) (r : List Block)
    → e ≤ 2 ^ 32
    → Chain a (b ∷ r) e
    → Chain a (coalesce_from b r) e
unfolding coalesce_from
coalesce_from-Chain a e b [] h c = c
coalesce_from-Chain a e b (x ∷ r) h (q, s, (q', s', c)) =
    elim (Bool-cases (not b.used && not x.used)) [
      | inl free ↦
          let le = Chain-le (a + 16 + b.size + 16 + x.size) e r c in
          let fits : (b.size + (16 + x.size)) % 2 ^ 32 ≡ b.size + 16 + x.size = omega arith in
          rw free (
            coalesce_from-Chain a e (absorb b x) r h
              (q, omega arith, subst (λ k. Chain k r e) (omega arith) c))
      | inr kept ↦ rw kept (q, s, coalesce_from-Chain (a + 16 + b.size) e x r h (q', s', c))
    ]

coalesce_from-IsSeparated :
    (p : Bool) (b : Block) (r : List Block)
    → p && not b.used ≡ false
    → IsSeparated p (coalesce_from b r)
unfolding coalesce_from
coalesce_from-IsSeparated p b [] h = (h, tt)
coalesce_from-IsSeparated p b (x ∷ r) h = elim (Bool-cases (not b.used && not x.used)) [
  | inl free ↦ rw free (coalesce_from-IsSeparated p (absorb b x) r h)
  | inr kept ↦ rw kept (h, coalesce_from-IsSeparated (not b.used) x r kept)
]

allocated-coalesce_from :
    (b : Block) (r : List Block) → allocated (coalesce_from b r) ≡ allocated (b ∷ r)
unfolding coalesce_from
allocated-coalesce_from b [] = refl
allocated-coalesce_from b (x ∷ r) =
    ground (arith, allocated-coalesce_from (absorb b x) r, allocated-coalesce_from x r)

pub coalesce-Chain :
    (a e : ℕ) (xs : List Block) → e ≤ 2 ^ 32 → Chain a xs e → Chain a (coalesce xs) e
unfolding coalesce
coalesce-Chain a e [] h c = c
coalesce-Chain a e (b ∷ r) h c = coalesce_from-Chain a e b r h c

pub coalesce-IsSeparated : (xs : List Block) → IsSeparated false (coalesce xs)
unfolding coalesce
coalesce-IsSeparated [] = tt
coalesce-IsSeparated (b ∷ r) = coalesce_from-IsSeparated false b r refl

pub allocated-coalesce : (xs : List Block) → allocated (coalesce xs) ≡ allocated xs
unfolding coalesce
allocated-coalesce [] = refl
allocated-coalesce (b ∷ r) = allocated-coalesce_from b r

-- A block begins at `addr`.
abbrev pub Heads : ℕ → List Block → Type 0
Heads addr [] = ⊥
Heads addr (b ∷ r) = (b.addr ≡ addr) ⊎ Heads addr r

-- The blocks in use, less the one at `addr`.
abbrev pub without : ℕ → List Block → List Block
without addr [] = []
without addr (b ∷ r) = if b.addr == addr then without addr r else b ∷ without addr r

-- Blocks from `a` on do not lie below `a`.
without_below :
    (addr a e : ℕ) (xs : List Block)
    → addr < a
    → Chain a xs e
    → without addr (allocated xs) ≡ allocated xs
without_below addr a e [] h c = refl
without_below addr a e (b ∷ r) h (q, s, c) =
    let other : b.addr ≢ addr = omega arith in
    ground (arith, ≢→== b.addr addr other, without_below addr (a + 16 + b.size) e r)

kept_block :
    (u : Bool) (addr : ℕ) (b : Block) (r ys : List Block)
    → (b.addr == addr) ≡ false
    → allocated ys ≡ without addr (allocated r)
    → (if u then b ∷ allocated ys else allocated ys)
      ≡ without addr (if u then b ∷ allocated r else allocated r)
kept_block true addr b r ys other e = rw other (ap (λ (zs : List Block). b ∷ zs) e)
kept_block false addr b r ys other e = e

-- The blocks after the mark.
record Marked (addr a e : ℕ) (xs ys : List Block) : Type 0 where
  chain : Chain a ys e
  in_use : allocated ys ≡ without addr (allocated xs)

Heads-Marked :
    (addr a e : ℕ) (xs : List Block)
    → Heads addr xs
    → Chain a xs e
    → (ys : List Block) × (mark_free addr xs ≡ some ys) × Marked addr a e xs ys
unfolding mark_free
Heads-Marked addr a e [] h c = absurd h
Heads-Marked addr a e (b ∷ r) h (q, s, c) = elim (Bool-cases (b.addr == addr)) [
  | inl it ↦
      let below : without addr (allocated r) ≡ allocated r =
        let at = ==→≡ b.addr addr it in without_below addr (a + 16 + b.size) e r (omega arith) c in
      (
        record b { used = false } ∷ r,
        rw it refl,
        record {
          chain = (q, s, c);
          in_use = elim (Bool-cases b.used) [
            | inl u ↦ rw (u, it) (sym below)
            | inr u ↦ rw u (sym below)
          ];
        },
      )
  | inr other ↦ elim h [
    | inl it ↦ absurd (==→≢ b.addr addr other it)
    | inr later ↦
        let (ys, found, m) = Heads-Marked addr (a + 16 + b.size) e r later c in
        (
          b ∷ ys,
          rw (other, found) refl,
          record { chain = (q, s, m.chain); in_use = kept_block b.used addr b r ys other m.in_use },
        )
  ]
]

kfree_at :
    {S : Type 0} (ptr : ℕ) (h : Heap S) (bs : List Block)
    → ptr ≢ 0
    → mark_free (ptr - 16) h.blocks ≡ some bs
    → kfree ptr h ≡ some (record h { blocks = coalesce bs })
unfolding kfree
kfree_at ptr h bs ne e = rw (≢→== ptr 0 ne, e) refl

-- What `kfree` makes of the block at `addr`: it succeeds, the heap is valid, and the blocks in use
-- are those of before without that one.
pub record Freed {S : Type 0} (addr : ℕ) (h : Heap S) (r : Option (Heap S)) : Type 0 where
  pub after : Heap S
  pub succeeds : r ≡ some after
  pub valid : IsValid after
  pub in_use : allocated after.blocks ≡ without addr (allocated h.blocks)

-- `kfree` of the pointer to a block of a valid heap succeeds and keeps the heap valid: the blocks
-- still fill the region, and no two free ones meet; that block is no longer in use, and every other
-- block in use keeps its address and its size.
pub kfree-Freed :
    {S : Type 0} (addr : ℕ) (h : Heap S)
    → IsValid h
    → Heads addr h.blocks
    → Freed addr h (kfree (addr + 16) h)
kfree-Freed addr h v at =
    let (bs, found, m) = Heads-Marked addr h.heap_base h.heap_end h.blocks at v.chain in
    let header : addr + 16 - 16 ≡ addr = omega arith in
    let some_block : addr + 16 ≢ 0 = λ e. omega arith in
    record {
      after = record h { blocks = coalesce bs };
      succeeds =
          kfree_at (addr + 16) h bs some_block
            (subst (λ (q : ℕ). mark_free q h.blocks ≡ some bs) (sym header) found);
      valid = record {
        base = v.base;
        small = v.small;
        page = v.page;
        chain = coalesce-Chain h.heap_base h.heap_end bs (omega (arith, v.small)) m.chain;
        separated = coalesce-IsSeparated bs;
      };
      in_use = allocated-coalesce bs ∙ m.in_use;
    }
