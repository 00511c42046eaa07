-- ===== src/Kheap/Malloc.antt =====
-- `grow_heap` and `kmalloc` of mm/kheap.c over any source of pages.
use pumpkin_os.Prelude.{
  ℕ, zero, suc, ◌+◌, ◌-◌, ◌*◌, ◌/◌, ◌%◌, ◌^◌, ◌≤◌, ◌<◌, ◌≡◌, refl, arith, List, [], ◌∷◌, ◌++◌, sym,
  ◌∙◌,
}
use pumpkin_os.Prelude.{false, Bool-cases, inl, inr, ◌==◌, ==→≢}
use pumpkin_os.Prelude.{Option-cases, append-nil}
use pumpkin_os.Kheap.{Block, Heap, Pages, map_one, map_pages, grow_heap, attempts}
use pumpkin_os.Kheap.{first_fit, round_up_page}
use pumpkin_os.Kheap.Chain.{allocated, IsValid, Chain-append}
use pumpkin_os.Kheap.Chain.{allocated-append, round_up_page_lem}
use pumpkin_os.Kheap.Coalesce.{coalesce-Chain, coalesce-IsSeparated, allocated-coalesce}
use pumpkin_os.Kheap.Fit.{
  Fit, first_fit-Fit, Fit-Chain, Fit-IsSeparated, Takes, Fit-Takes, Fit-bounds,
}

module _ {S : Type 0} (pg : Pages S) where
  map_pages-le : (n virt : ℕ) (s : S) → (map_pages pg n virt s).0 ≤ n
  unfolding map_pages
  map_pages-le zero virt s = omega arith
  map_pages-le (suc n) virt s =
      ground (arith, map_pages-le n ((virt + 4096) % 2 ^ 32) (map_one pg virt s).1)

  -- What the heap needs to stay below 4 GiB while it grows by this many bytes.
  abbrev pub Room : ℕ → Heap S → Type 0
  Room bytes h = h.heap_end + bytes + 4096 ≤ 2 ^ 32

  pub grow_heap-IsValid : (n : ℕ) (h : Heap S) → Room n h → IsValid h → IsValid (grow_heap pg n h).1
  unfolding grow_heap
  grow_heap-IsValid n h room v =
      let q = map_pages pg (round_up_page n / 4096) h.heap_end h.pages in
      let m = q.0 in
      let some_pages = map_pages-le (round_up_page n / 4096) h.heap_end h.pages in
      elim (Bool-cases (m == 0)) [
        | inl nothing ↦ rw nothing (record {
          base = v.base;
          small = v.small;
          page = v.page;
          chain = v.chain;
          separated = v.separated;
        })
        | inr grown ↦
            let pages = round_up_page_lem n (omega (arith, room)) in
            let lt : h.heap_end + m * 4096 < 2 ^ 32 = omega (arith, pages, some_pages, room) in
            let fits : (h.heap_end + m * 4096) % 2 ^ 32 ≡ h.heap_end + m * 4096 = omega arith in
            let pos = ==→≢ m 0 grown in
            let fresh : Block = record { addr = h.heap_end; size = m * 4096 - 16; used = false } in
            rw grown (record {
              base = v.base;
              small = omega arith;
              page = omega (arith, v.page);
              chain =
                  coalesce-Chain h.heap_base ((h.heap_end + m * 4096) % 2 ^ 32)
                    (h.blocks ++ fresh ∷ []) (omega arith)
                    (Chain-append h.heap_base h.heap_end ((h.heap_end + m * 4096) % 2 ^ 32) h.blocks
                      (fresh ∷ []) v.chain (refl, omega arith, omega arith));
              separated = coalesce-IsSeparated (h.blocks ++ fresh ∷ []);
            })
      ]

  allocated-grow_heap :
      (n : ℕ) (h : Heap S) → allocated (grow_heap pg n h).1.blocks ≡ allocated h.blocks
  unfolding grow_heap
  allocated-grow_heap n h =
      let q = map_pages pg (round_up_page n / 4096) h.heap_end h.pages in
      elim (Bool-cases (q.0 == 0)) [
        | inl nothing ↦ rw nothing
        | inr grown ↦
            let fresh : Block = record {
              addr = h.heap_end;
              size = q.0 * 4096 - 16;
              used = false;
            } in
            rw grown (
              allocated-coalesce (h.blocks ++ fresh ∷ [])
              ∙ allocated-append h.blocks (fresh ∷ [])
              ∙ append-nil (allocated h.blocks))
      ]

  -- What `kmalloc` gives: nothing, and every block in use as before; or an aligned pointer to a
  -- payload of the wanted size inside the region, in a block that was not in use before.
  pub data Mallocs (size : ℕ) (h : Heap S) (r : ℕ × Heap S) : Type 0 where
    failed : r.0 ≡ 0 → allocated r.1.blocks ≡ allocated h.blocks → Mallocs size h r
    got :
        Takes size h.blocks r.0 r.1.blocks
        → r.0 % 8 ≡ 0
        → h.heap_base + 16 ≤ r.0
        → r.0 + size ≤ r.1.heap_end
        → r.1.heap_base ≡ h.heap_base
        → Mallocs size h r

  take-IsValid :
      (need p : ℕ) (out : List Block) (h : Heap S)
      → need % 8 ≡ 0
      → Fit need h.blocks p out
      → IsValid h
      → IsValid (record h { blocks = out })
  take-IsValid need p out h al f v = record {
    base = v.base;
    small = v.small;
    page = v.page;
    chain = Fit-Chain h.heap_base h.heap_end f al (omega (arith, v.small, v.base)) v.chain;
    separated = Fit-IsSeparated false f v.separated;
  }

  take-Mallocs :
      (need p : ℕ) (out : List Block) (h : Heap S)
      → Fit need h.blocks p out
      → IsValid h
      → Mallocs need h (p, record h { blocks = out })
  take-Mallocs need p out h f v =
      let (al, lo, hi) = Fit-bounds h.heap_base h.heap_end f (omega (arith, v.base)) v.chain in
      got (Fit-Takes f) al lo hi refl

  -- Growing first changes nothing that `Mallocs` speaks of.
  grown-Mallocs :
      (need : ℕ) (h h' : Heap S) (r : ℕ × Heap S)
      → allocated h'.blocks ≡ allocated h.blocks
      → h'.heap_base ≡ h.heap_base
      → Mallocs need h' r
      → Mallocs need h r
  grown-Mallocs need h h' r e b (failed q s) = failed q (s ∙ e)
  grown-Mallocs need h h' r e b (got t al lo hi base) =
      got
        (record {
          before = t.before;
          taken = t.taken;
          after = t.after;
          old = sym e ∙ t.old;
          new = t.new;
          at = t.at;
          enough = t.enough;
        })
        al (rw (← b) lo) hi (base ∙ b)

  base-grow_heap : (n : ℕ) (h : Heap S) → (grow_heap pg n h).1.heap_base ≡ h.heap_base
  unfolding grow_heap
  base-grow_heap n h = ground arith

  end-grow_heap :
      (n : ℕ) (h : Heap S) → Room n h → (grow_heap pg n h).1.heap_end ≤ h.heap_end + n + 4096
  unfolding grow_heap
  end-grow_heap n h room =
      ground (arith, round_up_page_lem n, map_pages-le (round_up_page n / 4096) h.heap_end h.pages)

  pub attempts_lem :
      (n need : ℕ) (h : Heap S)
      → need % 8 ≡ 0
      → h.heap_end + n * (need + 16 + 4096) + 4096 ≤ 2 ^ 32
      → IsValid h
      → IsValid (attempts pg n need h).1 × Mallocs need h (attempts pg n need h)
  unfolding attempts
  attempts_lem zero need h al room v = (v, failed refl refl)
  attempts_lem (suc n) need h al room v =
      let g = grow_heap pg (need + 16) h in
      let enough : Room (need + 16) h = omega arith in
      let v' = grow_heap-IsValid (need + 16) h enough v in
      let same = allocated-grow_heap (need + 16) h in
      let base = base-grow_heap (need + 16) h in
      elim (Option-cases (first_fit need h.blocks)) [
        | inl none_fits ↦ elim (Bool-cases g.0) [
          | inl more ↦
              let (v'', m) =
                attempts_lem n need g.1 al (omega (arith, end-grow_heap (need + 16) h enough)) v' in
              rw (none_fits, attempts, more) (v'', grown-Mallocs need h g.1 _ same base m)
          | inr stop ↦ rw (none_fits, attempts, stop) (v', failed refl same)
        ]
        | inr ((p, out), found) ↦
            let f = first_fit-Fit need h.blocks p out found in
            rw (found, attempts) (take-IsValid need p out h al f v, take-Mallocs need p out h f v)
      ]
