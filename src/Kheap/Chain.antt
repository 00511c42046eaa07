-- ===== src/Kheap/Chain.antt =====
-- The blocks of mm/kheap.c as a chain that fills the region without gaps, and the blocks in use.
use pumpkin_os.Prelude.{ℕ, ◌+◌, ◌-◌, ◌/◌, ◌%◌, ◌^◌, ◌≤◌, ◌<◌, ◌≡◌, refl, arith, List, [], ◌∷◌, ◌++◌}
use pumpkin_os.Prelude.{Bool, false, not, ◌&&◌, if◌then◌else◌}
use pumpkin_os.Prelude.Bits.{bit_and_high, bit_and_mask}
use pumpkin_os.Kheap.{Block, Heap, kheap_base, round_up_8, round_up_page}

-- From `start` to `end`, header and payload after header and payload, payloads in multiples of 8.
abbrev pub Chain : ℕ → List Block → ℕ → Type 0
Chain start [] end = start ≡ end
Chain start (b ∷ r) end = (b.addr ≡ start) × (b.size % 8 ≡ 0) × Chain (start + 16 + b.size) r end

-- No two neighbours are both free; `was_free` speaks of the block before.
abbrev pub IsSeparated : Bool → List Block → Type 0
IsSeparated was_free [] = Unit
IsSeparated was_free (b ∷ r) = (was_free && not b.used ≡ false) × IsSeparated (not b.used) r

-- The blocks in use, in address order.
abbrev pub allocated : List Block → List Block
allocated [] = []
allocated (b ∷ r) = if b.used then b ∷ allocated r else allocated r

-- The region is at 3 GiB and ends below 4 GiB, its blocks fill it, and no two free blocks meet.
pub record IsValid {S : Type 0} (h : Heap S) : Type 0 where
  pub base : h.heap_base ≡ kheap_base
  pub small : h.heap_end < 2 ^ 32
  pub page : h.heap_end % 4096 ≡ 0
  pub chain : Chain h.heap_base h.blocks h.heap_end
  pub separated : IsSeparated false h.blocks

pub Chain-le : (a e : ℕ) (xs : List Block) → Chain a xs e → a ≤ e
Chain-le a e [] c = omega arith
Chain-le a e (b ∷ r) (q, s, c) = omega (arith, Chain-le (a + 16 + b.size) e r c)

pub Chain-append :
    (a m e : ℕ) (xs ys : List Block) → Chain a xs m → Chain m ys e → Chain a (xs ++ ys) e
Chain-append a m e [] ys p c = rw p c
Chain-append a m e (b ∷ r) ys (q, s, p) c = (q, s, Chain-append (a + 16 + b.size) m e r ys p c)

pub allocated-append : (xs ys : List Block) → allocated (xs ++ ys) ≡ allocated xs ++ allocated ys
allocated-append [] ys = refl
allocated-append (b ∷ r) ys = ground (arith, allocated-append r ys)

-- `(size + 7) & ~7` where the sum does not wrap.
pub round_up_8_lem :
    (size : ℕ)
    → size ≤ 2 ^ 32 - 8
    → (size ≤ round_up_8 size) × (round_up_8 size < size + 8) × (round_up_8 size % 8 ≡ 0)
round_up_8_lem size h = omega (
  arith,
  bit_and_high 3 ((size + 7) % 2 ^ 32) (2 ^ 29 - 1),
  bit_and_mask 29 ((size + 7) % 2 ^ 32 / 2 ^ 3),
)

pub round_up_page_lem :
    (n : ℕ)
    → n + 4096 ≤ 2 ^ 32
    → (n ≤ round_up_page n) × (round_up_page n < n + 4096) × (round_up_page n % 4096 ≡ 0)
round_up_page_lem n h = omega (
  arith,
  bit_and_high 12 ((n + 4095) % 2 ^ 32) (2 ^ 20 - 1),
  bit_and_mask 20 ((n + 4095) % 2 ^ 32 / 2 ^ 12),
)
