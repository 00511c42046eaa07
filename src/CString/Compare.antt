-- ===== src/CString/Compare.antt =====
-- The comparisons of lib/string.c against equality of strings and blocks.
use pumpkin_os.Prelude.{
  ℕ, zero, suc, ◌+◌, ◌<◌, ◌≡◌, ◌≢◌, refl, sym, ap₂, arith, ◌==◌, false, Bool-cases, inl, inr, ==→≡,
  ==→≢, ≢→==,
}
use pumpkin_os.Prelude.{some, List, [], ◌∷◌, length, get_or, take}
use pumpkin_os.Prelude.Int.{ℤ, pos, sub_ℕ}
use pumpkin_os.CString.{memcmp, strcmp, strncmp}

-- The characters from `a` up to a zero.
abbrev pub IsString : List ℕ → ℕ → List ℕ → Type 0
IsString mem a [] = get_or mem a 0 ≡ 0
IsString mem a (c ∷ cs) = (get_or mem a 0 ≡ c) × (c ≢ 0) × IsString mem (a + 1) cs

sub_ℕ-zero : (x y : ℕ) → sub_ℕ x y ≡ pos 0 → x ≡ y
sub_ℕ-zero x y e = ground (arith, e)

-- A result that is 0 exactly for equal strings.
abbrev pub Tells : ℤ → List ℕ → List ℕ → Type 0
Tells r cs ds = (r ≡ pos 0 → cs ≡ ds) × (cs ≡ ds → r ≡ pos 0)

Tells-apart : (x y : ℕ) (cs ds : List ℕ) → x ≢ y → cs ≢ ds → Tells (sub_ℕ x y) cs ds
Tells-apart x y cs ds n m = (λ e. absurd (n (sub_ℕ-zero x y e)), λ e. absurd (m e))

Tells-cons : (r : ℤ) (c d : ℕ) (cs ds : List ℕ) → c ≡ d → Tells r cs ds → Tells r (c ∷ cs) (d ∷ ds)
Tells-cons r c d cs ds e t = (λ z. ap₂ (λ x xs. x ∷ xs) e (t.0 z), λ p. t.1 (cc))

cons-head : (c d : ℕ) (cs ds : List ℕ) → c ≢ d → (c ∷ cs) ≢ (d ∷ ds)
cons-head c d cs ds n = λ e. n (cc)

-- Where zero-terminated strings lie at `a` and `b`, `strcmp` ends after at most one round more than
-- the first has characters, and returns 0 exactly when the strings are equal.
strcmp-Tells :
    (fuel : ℕ) (mem : List ℕ) (a b : ℕ) (cs ds : List ℕ)
    → IsString mem a cs
    → IsString mem b ds
    → length cs < fuel
    → (r : ℤ) × (strcmp fuel mem a b ≡ some r) × Tells r cs ds
unfolding strcmp
strcmp-Tells zero mem a b cs ds p q h = absurd (omega arith)
strcmp-Tells (suc fuel) mem a b [] [] p q h = (pos 0, rw (p, q) refl, (λ e. refl, λ e. refl))
strcmp-Tells (suc fuel) mem a b [] (d ∷ ds) p q h =
    (sub_ℕ 0 d, rw (p, q.0) refl, Tells-apart 0 d [] (d ∷ ds) (λ e. q.1 (sym e)) (λ e. absurd (cc)))
strcmp-Tells (suc fuel) mem a b (c ∷ cs) [] p q h =
    let more : (c == 0) ≡ false = ≢→== c 0 p.1 in
    (sub_ℕ c 0, rw (p.0, q, more) refl, Tells-apart c 0 (c ∷ cs) [] p.1 (λ e. absurd (cc)))
strcmp-Tells (suc fuel) mem a b (c ∷ cs) (d ∷ ds) p q h =
    let more : (c == 0) ≡ false = ≢→== c 0 p.1 in
    elim (Bool-cases (c == d)) [
      | inl e ↦
          let rest = strcmp-Tells fuel mem (a + 1) (b + 1) cs ds p.2 q.2 (omega arith) in
          (rest.0, rw (p.0, q.0, more, e) rest.1, Tells-cons rest.0 c d cs ds (==→≡ c d e) rest.2)
      | inr e ↦ (
        sub_ℕ c d,
        rw (p.0, q.0, more, e) refl,
        Tells-apart c d (c ∷ cs) (d ∷ ds) (==→≢ c d e) (cons-head c d cs ds (==→≢ c d e)),
      )
    ]

-- Where zero-terminated strings lie at `a` and `b`, `strncmp` returns 0 exactly when the strings
-- agree in their first `n` characters, or are equal where one is shorter.
pub strncmp-Tells :
    (n : ℕ) (mem : List ℕ) (a b : ℕ) (cs ds : List ℕ)
    → IsString mem a cs
    → IsString mem b ds
    → Tells (strncmp mem a b n) (take n cs) (take n ds)
unfolding strncmp
strncmp-Tells zero mem a b cs ds p q = (λ e. refl, λ e. refl)
strncmp-Tells (suc n) mem a b [] [] p q = rw (p, q) (λ e. refl, λ e. refl)
strncmp-Tells (suc n) mem a b [] (d ∷ ds) p q =
    let less : (0 == d) ≡ false = ≢→== 0 d (λ e. q.1 (sym e)) in
    rw (p, q.0, less) (Tells-apart 0 d [] (d ∷ take n ds) (λ e. q.1 (sym e)) (λ e. absurd (cc)))
strncmp-Tells (suc n) mem a b (c ∷ cs) [] p q =
    let more : (c == 0) ≡ false = ≢→== c 0 p.1 in
    rw (p.0, q, more) (Tells-apart c 0 (c ∷ take n cs) [] p.1 (λ e. absurd (cc)))
strncmp-Tells (suc n) mem a b (c ∷ cs) (d ∷ ds) p q =
    let more : (c == 0) ≡ false = ≢→== c 0 p.1 in
    elim (Bool-cases (c == d)) [
      | inl e ↦
          rw (p.0, q.0, e, more)
            (Tells-cons (strncmp mem (a + 1) (b + 1) n) c d (take n cs) (take n ds) (==→≡ c d e)
              (strncmp-Tells n mem (a + 1) (b + 1) cs ds p.2 q.2))
      | inr e ↦
          rw (p.0, q.0, e)
            (Tells-apart c d (c ∷ take n cs) (d ∷ take n ds) (==→≢ c d e)
              (cons-head c d (take n cs) (take n ds) (==→≢ c d e)))
    ]

-- The `n` bytes from `a` on.
abbrev block : List ℕ → ℕ → ℕ → List ℕ
block mem a zero = []
block mem a (suc n) = get_or mem a 0 ∷ block mem (a + 1) n

-- `memcmp` returns 0 exactly for equal blocks.
memcmp-Tells :
    (n : ℕ) (mem : List ℕ) (a b : ℕ) → Tells (memcmp mem a b n) (block mem a n) (block mem b n)
unfolding memcmp
memcmp-Tells zero mem a b = (λ e. refl, λ e. refl)
memcmp-Tells (suc n) mem a b =
    let x = get_or mem a 0 in
    let y = get_or mem b 0 in
    elim (Bool-cases (x == y)) [
      | inl e ↦ rw e (
          Tells-cons (memcmp mem (a + 1) (b + 1) n) x y (block mem (a + 1) n) (block mem (b + 1) n)
            (==→≡ x y e) (memcmp-Tells n mem (a + 1) (b + 1)))
      | inr e ↦ rw e (
          Tells-apart x y (x ∷ block mem (a + 1) n) (y ∷ block mem (b + 1) n) (==→≢ x y e)
            (cons-head x y (block mem (a + 1) n) (block mem (b + 1) n) (==→≢ x y e)))
    ]
