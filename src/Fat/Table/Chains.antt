-- ===== src/Fat/Table/Chains.antt =====
-- Cluster chains of fs/fat12.c: `free_chain` ends and frees exactly its chain, and an allocation
-- stays clear of the chains in use.
use pumpkin_os.Prelude.{ℕ, zero, suc, ◌+◌, ◌≤◌, ◌<◌, ◌≡◌, ◌≢◌, refl, arith, ◌∙◌, inl, inr}
use pumpkin_os.Prelude.{
  ◌==◌, ◌||◌, leb, ltb, true, false, Bool, if◌then◌else◌, length, some, Bool-cases, ==→≡, List, [],
  ◌∷◌,
}
use pumpkin_os.Fat.Table.{Cache, eoc, fat_get, fat_put, alloc_cluster, free_chain}
use pumpkin_os.Fat.Table.Alloc.{
  IsFat, fat_put-IsFat, fat_get-fat_put, full, taken, alloc_cluster-Allocates,
}

-- A value that ends a chain.
abbrev pub is_end : ℕ → Bool
is_end c = ltb c 2 || leb eoc c

-- The chain from `c` consists of the clusters `xs`, all of the volume.
abbrev pub Chain : ℕ → Cache → ℕ → List ℕ → Type 0
Chain count fat c [] = is_end c ≡ true
Chain count fat c (x ∷ xs) =
    (x ≡ c) × (is_end c ≡ false) × (c < count + 2) × Chain count fat (fat_get c fat) xs

abbrev pub elem : ℕ → List ℕ → Bool
elem d [] = false
elem d (x ∷ xs) = d == x || elem d xs

-- A chain is determined by its start, so a cluster does not come back on it.
Chain-length :
    (count c : ℕ) (fat : Cache) (xs ys : List ℕ)
    → Chain count fat c xs
    → Chain count fat c ys
    → length xs ≡ length ys
Chain-length count c fat [] [] p q = refl
Chain-length count c fat [] (y ∷ ys) p q = absurd (ground arith)
Chain-length count c fat (x ∷ xs) [] p q = absurd (ground arith)
Chain-length count c fat (x ∷ xs) (y ∷ ys) p q =
    omega (arith, Chain-length count (fat_get c fat) fat xs ys p.3 q.3)

Chain-suffix :
    (count c d : ℕ) (fat : Cache) (xs : List ℕ)
    → Chain count fat c xs
    → elem d xs ≡ true
    → (ys : List ℕ) × Chain count fat d ys × (length ys ≤ length xs)
Chain-suffix count c d fat [] p e = absurd (cc)
Chain-suffix count c d fat (x ∷ xs) p e = elim (Bool-cases (d == x)) [
  | inl same ↦ (x ∷ xs, rw (==→≡ d x same ∙ p.0) p, omega arith)
  | inr other ↦
      let (ys, q, le) = Chain-suffix count (fat_get c fat) d fat xs p.3 (rw other at e) in
      (ys, q, omega arith)
]

Chain-nodup :
    (count c : ℕ) (fat : Cache) (x : ℕ) (xs : List ℕ)
    → Chain count fat c (x ∷ xs)
    → elem c xs ≡ false
Chain-nodup count c fat x xs p = elim (Bool-cases (elem c xs)) [
  | inl again ↦
      let (ys, q, le) = Chain-suffix count (fat_get c fat) c fat xs p.3 again in
      absurd (omega (arith, Chain-length count c fat (x ∷ xs) ys p q))
  | inr once ↦ once
]

-- Changing entries off the chain keeps the chain.
Chain-off :
    (count c : ℕ) (fat new : Cache) (xs : List ℕ)
    → ((d : ℕ) → elem d xs ≡ true → fat_get d new ≡ fat_get d fat)
    → Chain count fat c xs
    → Chain count new c xs
Chain-off count c fat new [] same p = p
Chain-off count c fat new (x ∷ xs) same (e, inside, lt, rest) =
    let here : fat_get c new ≡ fat_get c fat = same c (ground arith) in
    (
      e,
      inside,
      lt,
      rw here (Chain-off count (fat_get c fat) fat new xs (λ d h. same d (ground arith)) rest),
    )

-- On a cache that holds the volume's entries, `free_chain` from the start of a chain returns, with
-- any fuel above the chain's length; it makes the chain's entries 0 and changes no other entry.
pub free_chain_lem :
    (count fuel c : ℕ) (fat : Cache) (xs : List ℕ)
    → IsFat count fat
    → Chain count fat c xs
    → length xs < fuel
    → (new : Cache) × (free_chain fuel c fat ≡ some new)
      × IsFat count new
      × ((d : ℕ) → fat_get d new ≡ (if elem d xs then 0 else fat_get d fat))
unfolding free_chain
free_chain_lem count zero c fat xs v p h = absurd (omega arith)
free_chain_lem count (suc fuel) c fat [] v p h = (fat, ground arith, v, λ d. refl)
free_chain_lem count (suc fuel) c fat (x ∷ xs) v (e, inside, lt, rest) h =
    let cleared = fat_put c 0 fat in
    let once = Chain-nodup count c fat x xs (e, inside, lt, rest) in
    let put : (d : ℕ) → fat_get d cleared ≡ (if d == c then 0 else fat_get d fat) =
      λ d. fat_get-fat_put count c d 0 fat v lt (omega arith) in
    let (new, run, v', entries) =
      free_chain_lem count fuel (fat_get c fat) cleared xs (fat_put-IsFat count c 0 fat lt v)
        (Chain-off count (fat_get c fat) fat cleared xs (λ d on. put d ∙ ground arith) rest)
        (omega arith) in
    (new, ground (arith, run), v', λ d. ground (arith, entries d, put d))

elem-no : (d : ℕ) (xs : List ℕ) → ¬ (elem d xs ≡ true) → elem d xs ≡ false
elem-no d xs h = elim (Bool-cases (elem d xs)) [ inl on ↦ absurd (h on) | inr off ↦ off ]

elem-ge :
    (count c d : ℕ) (fat : Cache) (xs : List ℕ) → Chain count fat c xs → elem d xs ≡ true → 2 ≤ d
elem-ge count c d fat [] p on = absurd (cc)
elem-ge count c d fat (x ∷ xs) (e, inside, lt, rest) on =
    ground (arith, elem-ge count (fat_get c fat) d fat xs rest)

-- On a cache that holds the volume's entries, `alloc_cluster` gives a cluster that lies on no chain
-- without a free entry, and such chains stay what they are.
alloc_cluster-Chain :
    (count c : ℕ) (fat : Cache) (xs : List ℕ)
    → IsFat count fat
    → Chain count fat c xs
    → ((d : ℕ) → elem d xs ≡ true → fat_get d fat ≢ 0)
    → (elem (alloc_cluster count fat).0 xs ≡ false) × Chain count (alloc_cluster count fat).1 c xs
alloc_cluster-Chain count c fat xs v p in_use = elim (alloc_cluster-Allocates count fat v) [
  | full all e ↦
      rw e (elem-no 0 xs (λ on. absurd (omega (arith, elem-ge count c 0 fat xs p on))), p)
  | taken x (lo, lt, free, first) e v' entries ↦
      let off : elem x xs ≡ false = elem-no x xs (λ on. in_use x on free) in
      (
        rw e off,
        Chain-off count c fat (alloc_cluster count fat).1 xs
            (λ d on. entries d ∙ ground (arith, ==→≡ d x)) p,
      )
]
