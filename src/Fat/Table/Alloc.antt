-- ===== src/Fat/Table/Alloc.antt =====
-- `alloc_cluster` of fs/fat12.c: the lowest free cluster, and nothing else changes.
use pumpkin_os.Prelude.{ℕ, zero, suc, ◌+◌, ◌≤◌, ◌<◌, ◌≡◌, ◌≢◌, arith}
use pumpkin_os.Prelude.{
  ◌==◌, if◌then◌else◌, length, Option, none, some, Bool-cases, Option-cases, inl, inr, ==→≡, ==→≢,
  subst, sym,
}
use pumpkin_os.Fat.Table.{Cache, entry_offset, fat_get, fat_put, free_cluster, alloc_cluster}
use pumpkin_os.Fat.Table.Entries.{
  IsBytes, Covers, fat_put-IsBytes, length-fat_put, fat_get-put_self, fat_get-put_ne,
}

-- A cache of bytes that holds the entries of the clusters 2 to `count` + 1.
pub record IsFat (count : ℕ) (fat : Cache) : Type 0 where
  pub bytes : IsBytes fat
  pub covers : entry_offset (count + 1) + 1 < length fat

pub Covers-below : (count c : ℕ) (fat : Cache) → IsFat count fat → c < count + 2 → Covers fat c
Covers-below count c fat v h = omega (arith, v.covers)

pub fat_put-IsFat :
    (count c value : ℕ) (fat : Cache)
    → c < count + 2
    → IsFat count fat
    → IsFat count (fat_put c value fat)
fat_put-IsFat count c value fat h v = record {
  bytes = fat_put-IsBytes c value fat (Covers-below count c fat v h) v.bytes;
  covers = omega (arith, length-fat_put c value fat, v.covers);
}

-- In a cache that holds the volume's entries, writing a 12-bit value to the entry of one of its
-- clusters makes that entry read back as the value, and leaves every other entry as it was, also the
-- one that shares a byte with it.
pub fat_get-fat_put :
    (count c d value : ℕ) (fat : Cache)
    → IsFat count fat
    → c < count + 2
    → value < 4096
    → fat_get d (fat_put c value fat) ≡ (if d == c then value else fat_get d fat)
fat_get-fat_put count c d value fat v h lt =
    let cov = Covers-below count c fat v h in
    elim (Bool-cases (d == c)) [
      | inl e ↦ rw (e, ==→≡ d c e) (fat_get-put_self c value fat cov v.bytes lt)
      | inr ne ↦ rw ne (fat_get-put_ne c d value fat cov v.bytes lt (λ e. ==→≢ d c ne (sym e)))
    ]

-- The first free cluster from `lo` on.
abbrev pub AllTaken : Cache → ℕ → ℕ → Type 0
AllTaken fat lo hi = (d : ℕ) → lo ≤ d → d < hi → fat_get d fat ≢ 0

abbrev pub Found : Cache → ℕ → ℕ → Option ℕ → Type 0
Found fat lo hi none = AllTaken fat lo hi
Found fat lo hi (some c) = (lo ≤ c) × (c < hi) × (fat_get c fat ≡ 0) × AllTaken fat lo c

Found-step :
    (c hi : ℕ) (r : Option ℕ) (fat : Cache)
    → fat_get c fat ≢ 0
    → Found fat (c + 1) hi r
    → Found fat c hi r
Found-step c hi none fat now later = λ d p q. elim (Bool-cases (d == c)) [
  | inl e ↦ rw (==→≡ d c e) now
  | inr ne ↦ later d (ground arith) q
]
Found-step c hi (some x) fat now (lo, lt, free, later) = (
  omega arith,
  lt,
  free,
  λ d p q. elim (Bool-cases (d == c)) [
    | inl e ↦ rw (==→≡ d c e) now
    | inr ne ↦ later d (ground arith) q
  ],
)

free_cluster-Found : (n c : ℕ) (fat : Cache) → Found fat c (c + n) (free_cluster n c fat)
unfolding free_cluster
free_cluster-Found zero c fat = λ d p q. absurd (omega arith)
free_cluster-Found (suc n) c fat =
    let later : Found fat (c + 1) (c + suc n) (free_cluster n (c + 1) fat) =
      subst (λ k. Found fat (c + 1) k (free_cluster n (c + 1) fat)) (omega arith)
        (free_cluster-Found n (c + 1) fat) in
    elim (Bool-cases (fat_get c fat == 0)) [
      | inl free ↦ rw free (omega arith, omega arith, ==→≡ _ 0 free, λ d p q. absurd (omega arith))
      | inr taken ↦
          rw taken
            (Found-step c (c + suc n) (free_cluster n (c + 1) fat) fat (==→≢ _ 0 taken) later)
    ]

-- The two outcomes of `alloc_cluster`.
pub data Allocates (count : ℕ) (fat : Cache) (r : ℕ × Cache) : Type 0 where
  full : AllTaken fat 2 (count + 2) → r ≡ (0, fat) → Allocates count fat r
  taken :
      (c : ℕ)
      → (2 ≤ c) × (c < count + 2) × (fat_get c fat ≡ 0) × AllTaken fat 2 c
      → r.0 ≡ c
      → IsFat count r.1
      → ((d : ℕ) → fat_get d r.1 ≡ (if d == c then 0xFFF else fat_get d fat))
      → Allocates count fat r

-- On a cache that holds the volume's entries `alloc_cluster` either takes the lowest free cluster,
-- whose entry it makes the end of a chain while no other entry changes, or, when no cluster is
-- free, returns 0 and leaves the cache alone.
pub alloc_cluster-Allocates :
    (count : ℕ) (fat : Cache) → IsFat count fat → Allocates count fat (alloc_cluster count fat)
unfolding alloc_cluster
alloc_cluster-Allocates count fat v =
    let search : Found fat 2 (count + 2) (free_cluster count 2 fat) =
      subst (λ k. Found fat 2 k (free_cluster count 2 fat)) (omega arith)
        (free_cluster-Found count 2 fat) in
    elim (Option-cases (free_cluster count 2 fat)) [
      | inl e ↦ full (rw e at search) (rw (e, alloc_cluster))
      | inr (c, e) ↦
          let found : Found fat 2 (count + 2) (some c) = rw e at search in
          taken c found (rw (e, alloc_cluster))
            (rw (e, alloc_cluster) (fat_put-IsFat count c 0xFFF fat found.1 v))
            (rw (e, alloc_cluster)
              (λ d. fat_get-fat_put count c d 0xFFF fat v found.1 (omega arith)))
    ]
