-- ===== src/Net/Wire/Checksum.antt =====
-- `ip_checksum` of net/net.c against the remainder modulo 65535.
use pumpkin_os.Prelude.{
  ℕ, zero, suc, ◌+◌, ◌-◌, ◌*◌, ◌/◌, ◌%◌, ◌^◌, ◌≤◌, ◌<◌, ◌≡◌, refl, sym, ap, ◌∙◌, arith, bit_and,
}
use pumpkin_os.Prelude.{
  List, [], ◌∷◌, ◌++◌, length, if_cases, ◌==◌, ==→≡, ==→≢, Bool-cases, ltb, ltb→lt, ltb→le, inl,
  inr,
}
use pumpkin_os.Prelude.Bits.{bit_and_mask}
use pumpkin_os.Net.Wire.{sum_words, fold, ip_checksum, word}

abbrev pub AllBytes : List ℕ → Type 0
AllBytes [] = Unit
AllBytes (b ∷ bs) = (b < 256) × AllBytes bs

-- The ones' complement sum as a number: 0 for 0, otherwise the remainder from 1 to 65535.
abbrev folded : ℕ → ℕ
folded zero = 0
folded (suc s) = 1 + s % 65535

fold_small : (n s : ℕ) → s < 2 ^ 16 → fold n s ≡ s
unfolding fold
fold_small zero s h = refl
fold_small (suc n) s h =
    if_cases (λ t. t ≡ s) (s / 2 ^ 16 == 0) s (fold n ((bit_and s 0xFFFF + s / 2 ^ 16) % 2 ^ 32))
      (λ e. refl) (λ e. absurd (omega (arith, ==→≢ _ _ e)))

-- One round.
fold_step : (n s : ℕ) → s < 2 ^ 32 → 2 ^ 16 ≤ s → fold (suc n) s ≡ fold n (s % 2 ^ 16 + s / 2 ^ 16)
unfolding fold
fold_step n s h l =
    if_cases (λ t. t ≡ fold n (s % 2 ^ 16 + s / 2 ^ 16)) (s / 2 ^ 16 == 0) s
      (fold n ((bit_and s 0xFFFF + s / 2 ^ 16) % 2 ^ 32)) (λ e. absurd (omega (arith, ==→≡ _ _ e)))
      (λ e. ap (fold n) (omega (arith, bit_and_mask 16 s)))

folded_lem : (s : ℕ) → 0 < s → folded s ≡ 1 + (s - 1) % 65535
folded_lem zero h = absurd (omega arith)
folded_lem (suc s) h = omega arith

folded-small : (s : ℕ) → s < 2 ^ 16 → folded s ≡ s
folded-small zero h = refl
folded-small (suc s) h = omega arith

-- A round keeps the remainder.
folded-step : (s : ℕ) → 2 ^ 16 ≤ s → folded (s % 2 ^ 16 + s / 2 ^ 16) ≡ folded s
folded-step s h =
    folded_lem (s % 2 ^ 16 + s / 2 ^ 16) (omega arith)
    ∙ omega arith
    ∙ sym (folded_lem s (omega arith))

-- A sum that was folded to at most `bound` needs `n` more rounds.
abbrev Folds : ℕ → ℕ → Type 0
Folds n bound = (s : ℕ) → s ≤ bound → fold n s ≡ folded s

Folds-once : Folds 0 (2 ^ 16 - 1)
Folds-once s h = fold_small 0 s (omega arith) ∙ sym (folded-small s (omega arith))

Folds-more :
    (n bound s : ℕ)
    → Folds n bound
    → s < 2 ^ 32
    → s % 2 ^ 16 + s / 2 ^ 16 ≤ bound
    → fold (suc n) s ≡ folded s
Folds-more n bound s f h l = elim (Bool-cases (ltb s (2 ^ 16))) [
  | inl e ↦ fold_small (suc n) s (ltb→lt _ _ e) ∙ sym (folded-small s (ltb→lt _ _ e))
  | inr e ↦
      fold_step n s h (ltb→le _ _ e) ∙ f (s % 2 ^ 16 + s / 2 ^ 16) l ∙ folded-step s (ltb→le _ _ e)
]

Folds-two : Folds 1 (2 ^ 16)
Folds-two s h = Folds-more 0 _ s Folds-once (omega arith) (omega arith)

Folds-three : Folds 2 (2 ^ 17)
Folds-three s h = Folds-more 1 _ s Folds-two (omega arith) (omega arith)

-- Three rounds fold every 32-bit sum.
pub fold_lem : (s : ℕ) → s < 2 ^ 32 → fold 3 s ≡ folded s
fold_lem s h = Folds-more 2 _ s Folds-three h (omega arith)

-- The sum of the words, without a bound on its size.
abbrev total : List ℕ → ℕ
total [] = 0
total (b ∷ []) = b
total (lo ∷ hi ∷ more) = lo + hi * 256 + total more

total-bound : (bs : List ℕ) → AllBytes bs → total bs ≤ 65536 * length bs
total-bound [] h = omega arith
total-bound (b ∷ []) (h, t) = omega arith
total-bound (lo ∷ hi ∷ more) (h, (g, t)) = omega (arith, total-bound more t)

sum_words_lem :
    (acc : ℕ) (bs : List ℕ)
    → AllBytes bs
    → acc + 65536 * length bs < 2 ^ 32
    → sum_words acc bs ≡ acc + total bs
unfolding sum_words
sum_words_lem acc [] h l = omega arith
sum_words_lem acc (b ∷ []) (h, t) l = omega arith
sum_words_lem acc (lo ∷ hi ∷ more) (h, (g, t)) l =
    let e : (acc + (lo + hi * 2 ^ 8)) % 2 ^ 32 ≡ acc + (lo + hi * 256) = omega arith in
    rw e (sum_words_lem (acc + (lo + hi * 256)) more t (omega arith) ∙ omega arith)

-- The checksum of fewer than 65536 bytes.
pub ip_checksum_lem :
    (bs : List ℕ) → AllBytes bs → length bs < 65536 → ip_checksum bs ≡ 65535 - folded (total bs)
unfolding ip_checksum
ip_checksum_lem bs h l =
    let e : sum_words 0 bs ≡ total bs = sum_words_lem 0 bs h (omega arith) ∙ omega arith in
    let f : fold 3 (total bs) ≡ folded (total bs) =
      fold_lem (total bs) (omega (arith, total-bound bs h)) in
    rw e (rw f (omega (arith, folded-bound (total bs))))
  where
    folded-bound : (s : ℕ) → folded s ≤ 65535
    folded-bound zero = omega arith
    folded-bound (suc s) = omega arith

-- An even number of bytes.
abbrev pub Pairs : List ℕ → Type 0
Pairs [] = Unit
Pairs (b ∷ []) = 1 ≤ 0
Pairs (lo ∷ hi ∷ more) = Pairs more

total-insert :
    (xs ys : List ℕ) (lo hi : ℕ)
    → Pairs xs
    → total (xs ++ lo ∷ hi ∷ ys) ≡ lo + hi * 256 + total (xs ++ 0 ∷ 0 ∷ ys)
total-insert [] ys lo hi p = omega arith
total-insert (x ∷ []) ys lo hi p = absurd (omega (arith, p))
total-insert (x ∷ y ∷ xs) ys lo hi p = omega (arith, total-insert xs ys lo hi p)

AllBytes-insert :
    (xs ys : List ℕ) (lo hi : ℕ)
    → AllBytes (xs ++ 0 ∷ 0 ∷ ys)
    → lo < 256
    → hi < 256
    → AllBytes (xs ++ lo ∷ hi ∷ ys)
AllBytes-insert [] ys lo hi (a, (b, h)) l g = (l, (g, h))
AllBytes-insert (x ∷ xs) ys lo hi (a, h) l g = (a, AllBytes-insert xs ys lo hi h l g)

length-insert :
    (xs ys : List ℕ) (lo hi : ℕ) → length (xs ++ lo ∷ hi ∷ ys) ≡ length (xs ++ 0 ∷ 0 ∷ ys)
length-insert [] ys lo hi = refl
length-insert (x ∷ xs) ys lo hi = ap suc (length-insert xs ys lo hi)

-- The sum with its own complement added is all ones.
complement : (s : ℕ) → folded (65535 - folded s + s) ≡ 65535
complement zero = refl
complement (suc s) = folded_lem (65535 - folded (suc s) + suc s) (omega arith) ∙ omega arith

-- A checksum computed over a zero field at an even offset, and then stored in that field, makes the
-- checksum of the whole 0, for fewer than 65536 bytes.
pub ip_checksum-verifies :
    (xs ys : List ℕ)
    → Pairs xs
    → AllBytes (xs ++ 0 ∷ 0 ∷ ys)
    → length (xs ++ 0 ∷ 0 ∷ ys) < 65536
    → ip_checksum (xs ++ (word (ip_checksum (xs ++ 0 ∷ 0 ∷ ys)) ++ ys)) ≡ 0
ip_checksum-verifies xs ys p h l =
    let s = total (xs ++ 0 ∷ 0 ∷ ys) in
    let c = ip_checksum (xs ++ 0 ∷ 0 ∷ ys) in
    let lo = c % 2 ^ 8 in
    let hi = (c / 2 ^ 8) % 2 ^ 8 in
    let known = ip_checksum_lem (xs ++ 0 ∷ 0 ∷ ys) h l in
    let whole : total (xs ++ lo ∷ hi ∷ ys) ≡ 65535 - folded s + s =
      omega (arith, total-insert xs ys lo hi p, known) in
    ip_checksum_lem (xs ++ lo ∷ hi ∷ ys) (AllBytes-insert xs ys lo hi h (omega arith) (omega arith))
      (omega (arith, length-insert xs ys lo hi))
    ∙ ap (λ t. 65535 - folded t) whole
    ∙ omega (arith, complement s)
