-- ===== src/Kheap/Tests.antt =====
-- Runs of mm/kheap.c over a counter of free frames.
use pumpkin_os.Prelude.{ℕ, ◌+◌, ◌-◌, ◌*◌, ◌≡◌, refl, arith, [], ◌∷◌, ◌==◌, if◌then◌else◌}
use pumpkin_os.Prelude.{true, false, some, none, inl}
use pumpkin_os.Kheap.{Heap, Pages, kheap_init, kmalloc, kfree}
use pumpkin_os.Kheap.Chain.{IsValid, allocated}
use pumpkin_os.Kheap.Coalesce.{Freed, kfree-Freed}
use pumpkin_os.Kheap.Malloc.{Mallocs}
use pumpkin_os.Kheap.Requests.{kmalloc_lem}
use pumpkin_os.Kheap.Requests.{kfree-kmalloc, kmalloc_wraps}

abbrev counter : Pages ℕ
counter = record {
  alloc_frame = λ n. if n == 0 then (0, 0) else (n * 4096, n - 1);
  free_frame = λ _ n. n + 1;
  map = λ _ _ n. (true, n);
}

abbrev start : Heap ℕ
start = kheap_init counter 6

-- 100 bytes in use, then 16264 free ones.
abbrev one_block : Heap ℕ
one_block = record {
  heap_base = 0xC000_0000;
  heap_end = 0xC000_4000;
  blocks =
      record { addr = 0xC000_0000; size = 104; used = true }
      ∷ record { addr = 0xC000_0078; size = 16248; used = false }
      ∷ [];
  pages = 2;
}

abbrev all_free : Heap ℕ
all_free = record {
  heap_base = 0xC000_0000;
  heap_end = 0xC000_4000;
  blocks = record { addr = 0xC000_0000; size = 16368; used = false } ∷ [];
  pages = 2;
}

one_block-IsValid : IsValid one_block
one_block-IsValid = record {
  base = refl;
  small = omega arith;
  page = refl;
  chain = (refl, refl, (refl, refl, refl));
  separated = (refl, (refl, tt));
}

all_free-IsValid : IsValid all_free
all_free-IsValid = record {
  base = refl;
  small = omega arith;
  page = refl;
  chain = (refl, refl, refl);
  separated = (refl, tt);
}

start_lem : start ≡ all_free
unfolding kheap_init
start_lem = refl

malloc_100 : kmalloc counter 100 all_free ≡ (0xC000_0010, one_block)
unfolding kmalloc
malloc_100 = refl

malloc_grows : (kmalloc counter 20000 all_free).0 ≡ 0xC000_0010
unfolding kmalloc
malloc_grows = refl

malloc_fails : (kmalloc counter 30000 all_free).0 ≡ 0
unfolding kmalloc
malloc_fails = refl

kmalloc_lem_example :
    IsValid (kmalloc counter 100 one_block).1
    × Mallocs counter 100 one_block (kmalloc counter 100 one_block)
kmalloc_lem_example =
    kmalloc_lem counter 100 one_block (omega arith) (omega arith) one_block-IsValid

kfree-kmalloc_example :
    let (p, h') = kmalloc counter 100 all_free in
    (t : Heap ℕ) × (kfree p h' ≡ some t) × (allocated t.blocks ≡ [])
unfolding kmalloc
kfree-kmalloc_example =
    kfree-kmalloc counter 100 all_free (omega arith) (omega arith) all_free-IsValid (omega arith)

kmalloc_wraps_example : (kmalloc counter 0xFFFF_FFFC all_free).0 ≡ 0xC000_0010
kmalloc_wraps_example =
    kmalloc_wraps counter 0xFFFF_FFFC all_free
      (record { addr = 0xC000_0000; size = 16368; used = false }) [] (omega arith) (omega arith)
      refl refl

kfree-Freed_example : Freed 0xC000_0000 one_block (kfree 0xC000_0010 one_block)
kfree-Freed_example = kfree-Freed 0xC000_0000 one_block one_block-IsValid (inl refl)

-- A pointer that heads no block has no next state.
wild_free : kfree 0xC000_0018 one_block ≡ none
unfolding kfree
wild_free = refl
