-- ===== src/Kheap.antt =====
-- mm/kheap.c: the first-fit allocator over a region at 3 GiB whose pages are mapped on demand. The
-- chain of headers in memory is the list of its blocks, in the order of the `next` pointers; a
-- block keeps the address of its header.
pub mod Chain
pub mod Coalesce
pub mod Fit
pub mod Malloc
pub mod Requests
mod Tests
use package.pumpkin_os.Prelude.{ℕ, zero, suc, ◌+◌, ◌-◌, ◌*◌, ◌/◌, ◌%◌, ◌^◌, bit_and}
use package.pumpkin_os.Prelude.{Bool, false, true, not, ◌&&◌, ltb, leb, ◌==◌, if◌then◌else◌}
use package.pumpkin_os.Prelude.{Option, none, some, List, [], ◌∷◌, ◌++◌}

abbrev pub kheap_base : ℕ
kheap_base = 0xC000_0000

abbrev pub kheap_initial : ℕ
kheap_initial = 0x4000

abbrev pub page_size : ℕ
page_size = 4096

abbrev pub header_size : ℕ
header_size = 16

abbrev pub min_split : ℕ
min_split = 8

-- `block_t`, with the address at which it lies.
pub record Block : Type 0 where
  pub addr : ℕ
  pub size : ℕ
  pub used : Bool

-- What the heap calls of mm/pmm.c and mm/paging.c, on their state `S`: `pmm_alloc_frame`,
-- `pmm_free_frame`, and `paging_map` for a present, writable page, true for its result 0.
pub record Pages (S : Type 0) : Type 0 where
  pub alloc_frame : S → ℕ × S
  pub free_frame : ℕ → S → S
  pub map : ℕ → ℕ → S → Bool × S

-- The file's static variables, and the state of the two files below it.
pub record Heap (S : Type 0) : Type 0 where
  pub heap_base : ℕ
  pub heap_end : ℕ
  pub blocks : List Block
  pub pages : S

abbrev pub absorb : Block → Block → Block
absorb b c = record b { size = (b.size + (header_size + c.size)) % 2 ^ 32 }

-- The loop of `coalesce` at the block `b` with the blocks after it.
pub coalesce_from : Block → List Block → List Block
coalesce_from b [] = b ∷ []
coalesce_from b (c ∷ r) =
    let again = coalesce_from (absorb b c) r in
    let on = b ∷ coalesce_from c r in if not b.used && not c.used then again else on

pub coalesce : List Block → List Block
unfolding coalesce_from
coalesce [] = []
coalesce (b ∷ r) = coalesce_from b r

-- The blocks that `split` and `b->used = 1` leave in place of `b`.
pub carve : Block → ℕ → List Block
carve b size =
    if leb ((size + header_size + min_split) % 2 ^ 32) b.size
    then record b { size = size; used = true }
      ∷ record {
        addr = b.addr + header_size + size;
        size = b.size - size - header_size;
        used = false;
      }
      ∷ []
    else record b { used = true } ∷ []

-- The inner loop of `kmalloc`: the pointer, and the blocks after it.
pub first_fit : ℕ → List Block → Option (ℕ × List Block)
unfolding carve
first_fit need [] = none
first_fit need (b ∷ r) =
    let rest = first_fit need r in
    if not b.used && leb need b.size
    then some (b.addr + header_size, carve b need ++ r)
    else elim rest [ none ↦ none | some (p, r') ↦ some (p, b ∷ r') ]

abbrev pub round_up_8 : ℕ → ℕ
round_up_8 size = bit_and ((size + 7) % 2 ^ 32) 0xFFFF_FFF8

-- `bytes` of `grow_heap`.
abbrev pub round_up_page : ℕ → ℕ
round_up_page n = bit_and ((n + 4095) % 2 ^ 32) 0xFFFF_F000

-- `b->used = 0` at the header at `addr`. Where no block of the chain begins the store hits other
-- bytes, and there is no next state of the model.
pub mark_free : ℕ → List Block → Option (List Block)
mark_free addr [] = none
mark_free addr (b ∷ r) =
    let rest = mark_free addr r in
    if b.addr == addr
    then some (record b { used = false } ∷ r)
    else elim rest [ none ↦ none | some r' ↦ some (b ∷ r') ]

module _ {S : Type 0} (pg : Pages S) where
  -- One page at `virt`: a frame, and its mapping or its return.
  pub map_one : ℕ → S → Bool × S
  map_one virt s =
      let (phys, s') = pg.alloc_frame s in
      let (ok, s'') = pg.map virt phys s' in
      if phys == 0 then (false, s') else if ok then (true, s'') else (false, pg.free_frame phys s'')

  -- The loop of `grow_heap` with `n` pages to go: how many it maps.
  pub map_pages : ℕ → ℕ → S → ℕ × S
  unfolding map_one
  map_pages zero virt s = (0, s)
  map_pages (suc n) virt s =
      let (ok, s') = map_one virt s in
      let (m, s'') = map_pages n ((virt + page_size) % 2 ^ 32) s' in
      if ok then (m + 1, s'') else (0, s')

  -- True for the result 0.
  pub grow_heap : ℕ → Heap S → Bool × Heap S
  unfolding map_pages coalesce
  grow_heap min_bytes h =
      let (m, s) = map_pages (round_up_page min_bytes / page_size) h.heap_end h.pages in
      if m == 0 then (false, record h { pages = s }) else (
        true,
        record h {
          heap_end = (h.heap_end + m * page_size) % 2 ^ 32;
          blocks = coalesce (
              h.blocks
              ++ record { addr = h.heap_end; size = m * page_size - header_size; used = false }
                ∷ []);
          pages = s;
        },
      )

  pub kheap_init : S → Heap S
  unfolding grow_heap
  kheap_init s =
      (grow_heap kheap_initial
        (record { heap_base = kheap_base; heap_end = kheap_base; blocks = []; pages = s })).1

  -- The outer loop of `kmalloc` with `n` attempts left.
  pub attempts : ℕ → ℕ → Heap S → ℕ × Heap S
  unfolding first_fit grow_heap
  attempts zero need h = (0, h)
  attempts (suc n) need h =
      let (grown, h') = grow_heap (need + header_size) h in
      let again = attempts n need h' in
      elim (first_fit need h.blocks) [
        | some (p, bs) ↦ (p, record h { blocks = bs })
        | none ↦ if grown then again else (0, h')
      ]

  pub kmalloc : ℕ → Heap S → ℕ × Heap S
  unfolding attempts
  kmalloc size h = if size == 0 then (0, h) else attempts 2 (round_up_8 size) h

-- `none` where the pointer is not null and heads no block.
pub kfree : {S : Type 0} → ℕ → Heap S → Option (Heap S)
unfolding mark_free coalesce
kfree ptr h = if ptr == 0 then some h else elim (mark_free (ptr - header_size) h.blocks) [
  | none ↦ none
  | some bs ↦ some (record h { blocks = coalesce bs })
]
