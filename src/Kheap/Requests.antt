-- ===== src/Kheap/Requests.antt =====
-- What the callers of mm/kheap.c rely on: `kheap_init`, `kmalloc` and `kfree` together.
use pumpkin_os.Prelude.{
  ℕ, ◌+◌, ◌-◌, ◌*◌, ◌/◌, ◌%◌, ◌^◌, ◌≤◌, ◌<◌, ◌≡◌, ◌≢◌, refl, arith, List, [], ◌∷◌, ◌++◌, sym, ◌∙◌,
}
use pumpkin_os.Prelude.{false, if◌then◌else◌, Bool-cases, inl, inr, ◌==◌, subst, ≢→==}
use pumpkin_os.Prelude.{some, Option-cases, ap, Bool, true, ◌⊎◌}
use pumpkin_os.Kheap.{Block, Heap, Pages, kheap_init, attempts, kmalloc, kfree}
use pumpkin_os.Kheap.{first_fit, round_up_8, kheap_base, carve}
use pumpkin_os.Prelude.Bits.{bit_and_high, bit_and_mask}
use pumpkin_os.Kheap.Chain.{Chain, allocated, IsValid, round_up_8_lem}
use pumpkin_os.Kheap.Coalesce.{without, Heads, kfree-Freed}
use pumpkin_os.Kheap.Fit.{NoneFits, first_fit-NoneFits, first_fit-Fit, Fit-bounds}
use pumpkin_os.Kheap.Malloc.{Mallocs, failed, got, attempts_lem, grow_heap-IsValid}

-- Blocks in address order from `lo` on, none reaching into the next.
abbrev pub IsDisjoint : ℕ → List Block → Type 0
IsDisjoint lo [] = Unit
IsDisjoint lo (b ∷ r) = (lo ≤ b.addr) × IsDisjoint (b.addr + 16 + b.size) r

IsDisjoint-weaken : (lo hi : ℕ) (xs : List Block) → lo ≤ hi → IsDisjoint hi xs → IsDisjoint lo xs
IsDisjoint-weaken lo hi [] le d = tt
IsDisjoint-weaken lo hi (b ∷ r) le (q, d) = (omega arith, d)

Chain-IsDisjoint : (a e : ℕ) (xs : List Block) → Chain a xs e → IsDisjoint a (allocated xs)
Chain-IsDisjoint a e [] c = tt
Chain-IsDisjoint a e (b ∷ r) (q, s, c) =
    let rest = Chain-IsDisjoint (a + 16 + b.size) e r c in
    elim (Bool-cases b.used) [
      | inl in_use ↦
          subst (λ u. IsDisjoint a (if u then b ∷ allocated r else allocated r)) (sym in_use)
            (omega arith, subst (λ k. IsDisjoint k (allocated r)) (omega arith) rest)
      | inr free ↦
          subst (λ u. IsDisjoint a (if u then b ∷ allocated r else allocated r)) (sym free)
            (IsDisjoint-weaken a (a + 16 + b.size) (allocated r) (omega arith) rest)
    ]

-- On a valid heap no two blocks in use overlap, headers included, and all lie above 3 GiB.
allocated-IsDisjoint :
    {S : Type 0} (h : Heap S) → IsValid h → IsDisjoint kheap_base (allocated h.blocks)
allocated-IsDisjoint h v =
    subst (λ k. IsDisjoint k (allocated h.blocks)) v.base
      (Chain-IsDisjoint h.heap_base h.heap_end h.blocks v.chain)

without_below :
    (addr lo : ℕ) (xs : List Block) → addr < lo → IsDisjoint lo xs → without addr xs ≡ xs
without_below addr lo [] h d = refl
without_below addr lo (b ∷ r) h (q, d) = ground (arith, without_below addr (b.addr + 16 + b.size) r)

IsDisjoint-middle :
    (lo : ℕ) (before after : List Block) (t : Block)
    → IsDisjoint lo (before ++ t ∷ after)
    → lo ≤ t.addr
IsDisjoint-middle lo [] after t (q, d) = q
IsDisjoint-middle lo (b ∷ before) after t (q, d) =
    omega (arith, IsDisjoint-middle (b.addr + 16 + b.size) before after t d)

without_middle :
    (lo : ℕ) (before after : List Block) (t : Block)
    → IsDisjoint lo (before ++ t ∷ after)
    → without t.addr (before ++ t ∷ after) ≡ before ++ after
without_middle lo [] after t (q, d) =
    ground (arith, without_below t.addr (t.addr + 16 + t.size) after)
without_middle lo (b ∷ before) after t (q, d) = ground (
  arith,
  IsDisjoint-middle (b.addr + 16 + b.size) before after t d,
  without_middle (b.addr + 16 + b.size) before after t d,
)

Heads-middle : (t : Block) (before after : List Block) → Heads t.addr (before ++ t ∷ after)
Heads-middle t [] after = inl refl
Heads-middle t (b ∷ before) after = inr (Heads-middle t before after)

Heads-either :
    (u : Bool) (addr : ℕ) (b : Block) (r : List Block)
    → (Heads addr (allocated r) → Heads addr r)
    → Heads addr (if u then b ∷ allocated r else allocated r)
    → (b.addr ≡ addr) ⊎ Heads addr r
Heads-either true addr b r more (inl e) = inl e
Heads-either true addr b r more (inr k) = inr (more k)
Heads-either false addr b r more k = inr (more k)

-- A block in use is a block.
Heads-allocated : (addr : ℕ) (xs : List Block) → Heads addr (allocated xs) → Heads addr xs
Heads-allocated addr [] h = h
Heads-allocated addr (b ∷ r) h = Heads-either b.used addr b r (Heads-allocated addr r) h

attempts_on_first :
    {S : Type 0} (pg : Pages S) (h : Heap S) (b : Block) (r : List Block)
    → h.blocks ≡ b ∷ r
    → b.used ≡ false
    → (attempts pg 2 0 h).0 ≡ b.addr + 16
unfolding attempts first_fit
attempts_on_first pg h b r e free =
    let found : first_fit 0 h.blocks ≡ some (b.addr + 16, carve b 0 ++ r) =
      rw (e, first_fit) (ground arith) in
    rw (found, attempts)

module _ {S : Type 0} (pg : Pages S) where
  -- On a valid heap with room below 4 GiB for two growths, `kmalloc` of a size that the rounding
  -- does not wrap keeps the heap valid, and gives an aligned pointer to a fresh block of at least
  -- that size inside the region, every other block in use being as before; or 0, and every block
  -- in use is as before.
  pub kmalloc_lem :
      (size : ℕ) (h : Heap S)
      → size ≤ 2 ^ 32 - 8
      → h.heap_end + 2 * (size + 4120) + 4096 ≤ 2 ^ 32
      → IsValid h
      → IsValid (kmalloc pg size h).1 × Mallocs pg size h (kmalloc pg size h)
  unfolding kmalloc
  kmalloc_lem size h small room v = elim (Bool-cases (size == 0)) [
    | inl zero_size ↦ rw zero_size (v, failed refl refl)
    | inr pos ↦
        let up = round_up_8_lem size small in
        let (v', m) = attempts_lem pg 2 (round_up_8 size) h up.2 (omega (arith, up)) v in
        rw pos (v', shrink (round_up_8 size) h _ up.0 m)
  ]
    where
      shrink :
          (need : ℕ) (h : Heap S) (r : ℕ × Heap S)
          → size ≤ need
          → Mallocs pg need h r
          → Mallocs pg size h r
      shrink need h r le (failed q s) = failed q s
      shrink need h r le (got t al lo hi base) =
          got
            (record {
              before = t.before;
              taken = t.taken;
              after = t.after;
              old = t.old;
              new = t.new;
              at = t.at;
              enough = omega (arith, t.enough);
            })
            al lo (omega arith) base

  -- `kheap_init` sets up a valid heap with nothing in use.
  kheap_init-IsValid : (s : S) → IsValid (kheap_init pg s)
  unfolding kheap_init
  kheap_init-IsValid s =
      grow_heap-IsValid pg 0x4000
        (record { heap_base = 0xC000_0000; heap_end = 0xC000_0000; blocks = []; pages = s })
        (omega arith)
        (record { base = refl; small = omega arith; page = refl; chain = refl; separated = tt })

  -- On a valid heap with such room, freeing the pointer that `kmalloc` returned succeeds, and leaves
  -- the blocks in use as they were before the two calls.
  pub kfree-kmalloc :
      (size : ℕ) (h : Heap S)
      → size ≤ 2 ^ 32 - 8
      → h.heap_end + 2 * (size + 4120) + 4096 ≤ 2 ^ 32
      → IsValid h
      → (kmalloc pg size h).0 ≢ 0
      → let (p, h') = kmalloc pg size h in
        (t : Heap S) × (kfree p h' ≡ some t) × (allocated t.blocks ≡ allocated h.blocks)
  kfree-kmalloc size h small room v ne =
      let (v', m) = kmalloc_lem size h small room v in
      elim m [
        | failed q s ↦ absurd (ne q)
        | got t al lo hi base ↦
            let (p, h') = kmalloc pg size h in
            let apart : IsDisjoint kheap_base (t.before ++ t.taken ∷ t.after) =
              subst (IsDisjoint kheap_base) t.new (allocated-IsDisjoint h' v') in
            let at : Heads t.taken.addr h'.blocks =
              Heads-allocated t.taken.addr h'.blocks
                (subst (Heads t.taken.addr) (sym t.new) (Heads-middle t.taken t.before t.after)) in
            let f = kfree-Freed t.taken.addr h' v' at in
            let pointer : p ≡ t.taken.addr + 16 = sym t.at in
            (
              f.after,
              ap (λ (q : ℕ). kfree q h') pointer ∙ f.succeeds,
              f.in_use
                  ∙ ap (without t.taken.addr) t.new
                  ∙ without_middle kheap_base t.before t.after t.taken apart
                  ∙ sym t.old,
            )
      ]

  -- Where `kmalloc` of a size that the rounding does not wrap returns 0 for a nonzero size, every
  -- block of a valid heap was in use or smaller than the rounded size.
  kmalloc-NoneFits :
      (size : ℕ) (h : Heap S)
      → IsValid h
      → size ≢ 0
      → (kmalloc pg size h).0 ≡ 0
      → NoneFits (round_up_8 size) h.blocks
  unfolding kmalloc attempts
  kmalloc-NoneFits size h v ne e =
      let need = round_up_8 size in
      elim (Option-cases (first_fit need h.blocks)) [
        | inl nothing ↦ first_fit-NoneFits need h.blocks nothing
        | inr ((p, out), found) ↦
            let f = first_fit-Fit need h.blocks p out found in
            let (al, lo, hi) =
              Fit-bounds h.heap_base h.heap_end f (omega (arith, v.base)) v.chain in
            let zero_result : p ≡ 0 = rw (≢→== size 0 ne, found, attempts) at e in
            absurd (omega arith)
      ]

  -- A size within 7 of 4 GiB wraps to 0 when it is rounded up: `kmalloc` then returns the payload
  -- of the first block, if it is free, whatever its size.
  pub kmalloc_wraps :
      (size : ℕ) (h : Heap S) (b : Block) (r : List Block)
      → 2 ^ 32 - 8 < size
      → size < 2 ^ 32
      → h.blocks ≡ b ∷ r
      → b.used ≡ false
      → (kmalloc pg size h).0 ≡ b.addr + 16
  unfolding kmalloc attempts first_fit
  kmalloc_wraps size h b r big lt e free =
      let zero_need : round_up_8 size ≡ 0 = omega (
        arith,
        bit_and_high 3 ((size + 7) % 2 ^ 32) (2 ^ 29 - 1),
        bit_and_mask 29 ((size + 7) % 2 ^ 32 / 2 ^ 3),
      ) in
      let pos : size ≢ 0 = omega arith in
      rw (≢→== size 0 pos, zero_need, attempts_on_first pg h b r e free)
