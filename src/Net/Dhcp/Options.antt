-- ===== src/Net/Dhcp/Options.antt =====
-- `find_opt` of net/dhcp.c against a list of options.
use pumpkin_os.Prelude.{
  ℕ, zero, suc, ◌+◌, ◌≤◌, ◌<◌, ◌≡◌, ◌≢◌, refl, sym, ap, ◌∙◌, arith, ltb, ◌==◌, ≢→==, lt→ltb,
  if◌then◌else◌, if_cases, not,
}
use pumpkin_os.Prelude.{
  List, [], ◌∷◌, ◌++◌, length, get_or, get_or-append, length-append, append_assoc, Option, none,
  some,
}
use pumpkin_os.Net.Dhcp.{find_from, find_opt, magic}

-- Options with their tags, between 1 and 254.
abbrev pub Opts : List (ℕ × List ℕ) → Type 0
Opts [] = Unit
Opts ((t, v) ∷ os) = (t ≢ 0) × (t ≢ 255) × Opts os

-- The options in memory, with the end mark.
abbrev pub coded : List (ℕ × List ℕ) → List ℕ
coded [] = 255 ∷ []
coded ((t, v) ∷ os) = t ∷ length v ∷ (v ++ coded os)

-- The value of the first option with a tag, as an index and a length.
abbrev pub lookup : ℕ → ℕ → List (ℕ × List ℕ) → Option (ℕ × ℕ)
lookup i want [] = none
lookup i want ((t, v) ∷ os) =
    if t == want then some (i + 2, length v) else lookup (i + (2 + length v)) want os

at_second :
    (pre rest : List ℕ) (a b i : ℕ) → i ≡ length pre → get_or (pre ++ a ∷ b ∷ rest) (i + 1) 0 ≡ b
at_second [] rest a b i e = rw e refl
at_second (x ∷ pre) rest a b i e =
    let s : i + 1 ≡ suc (length pre + 1) = omega arith in
    rw s (at_second pre rest a b (length pre) refl)

find_step :
    (n i len want t l : ℕ) (f : List ℕ)
    → get_or f i 0 ≡ t
    → get_or f (i + 1) 0 ≡ l
    → i + 1 < len
    → t ≢ 0
    → t ≢ 255
    → find_from (suc n) i f len want
      ≡ (if t == want then some (i + 2, l) else find_from n (i + (2 + l)) f len want)
unfolding find_from
find_step n i len want t l f e g h a b =
    rw (e, g, lt→ltb (i + 1) len h, ≢→== t 0 a, ≢→== t 255 b) refl

find_end :
    (n i len want : ℕ) (f : List ℕ) → get_or f i 0 ≡ 255 → find_from (suc n) i f len want ≡ none
unfolding find_from
find_end n i len want f e =
    if_cases (λ o. o ≡ none) (not (ltb (i + 1) len)) none _ (λ _. refl) (λ _. rw e refl)

-- An option, moved to what lies before.
move :
    (pre : List ℕ) (t : ℕ) (x w post : List ℕ)
    → pre ++ ((t ∷ length x ∷ (x ++ w)) ++ post) ≡ (pre ++ (t ∷ length x ∷ x)) ++ (w ++ post)
move pre t x w post =
    ap (λ l. pre ++ (t ∷ length x ∷ l)) (append_assoc x w post)
    ∙ sym (append_assoc pre (t ∷ length x ∷ x) (w ++ post))

find_from-lookup :
    (os : List (ℕ × List ℕ)) (pre post : List ℕ) (n i len want : ℕ)
    → Opts os
    → i ≡ length pre
    → i + length (coded os) ≤ len
    → length (coded os) ≤ n
    → find_from n i (pre ++ (coded os ++ post)) len want ≡ lookup i want os
unfolding find_from
find_from-lookup [] pre post zero i len want v e h u = absurd (omega arith)
find_from-lookup ((t, x) ∷ os) pre post zero i len want v e h u = absurd (omega arith)
find_from-lookup [] pre post (suc n) i len want v e h u =
    find_end n i len want _ (get_or-append pre (255 ∷ post) i 0 e)
find_from-lookup ((t, x) ∷ os) pre post (suc n) i len want (a, b, v) e h u =
    let f = pre ++ (coded ((t, x) ∷ os) ++ post) in
    let i' = i + (2 + length x) in
    let size = length-append x (coded os) in
    let at : i' ≡ length (pre ++ (t ∷ length x ∷ x)) =
      omega (arith, length-append pre (t ∷ length x ∷ x)) in
    find_step n i len want t (length x) f (get_or-append pre _ i 0 e)
      (at_second pre ((x ++ coded os) ++ post) t (length x) i e) (omega (arith, size)) a b
    ∙ ap (λ r. if t == want then some (i + 2, length x) else r)
        (ap (λ g. find_from n i' g len want) (move pre t x (coded os) post)
          ∙ find_from-lookup os (pre ++ (t ∷ length x ∷ x)) post n i' len want v at
              (omega (arith, size)) (omega (arith, size)))

-- In an options area of the magic cookie, options with tags other than 0 and 255, and the end mark,
-- `find_opt` finds the value of the first option with the tag, and no other.
pub find_opt-lookup :
    (os : List (ℕ × List ℕ)) (post : List ℕ) (len want : ℕ)
    → Opts os
    → 4 + length (coded os) ≤ len
    → find_opt (magic ++ (coded os ++ post)) len want ≡ lookup 4 want os
unfolding find_opt
find_opt-lookup os post len want v h =
    find_from-lookup os magic post len 4 len want v refl h (omega arith)
