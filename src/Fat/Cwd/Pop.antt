-- ===== src/Fat/Cwd/Pop.antt =====
-- `path_pop` of fs/fat12.c: it undoes `path_push`.
use pumpkin_os.Prelude.{
  ℕ, zero, suc, ◌+◌, ◌-◌, ◌≤◌, ◌<◌, ◌≡◌, ◌≢◌, refl, arith, ap, ◌∙◌, sym, subst,
}
use pumpkin_os.Prelude.{◌⊎◌, inl, inr, lt→ltb, le→ltb, ≢→==}
use pumpkin_os.Prelude.{List, [], ◌∷◌, ◌++◌, length, get_or, set, take, append_assoc, some}
use pumpkin_os.Prelude.{length-append, length-set, set-append}
use pumpkin_os.Fat.Cwd.{slash, strlen, path_push, back_up, kept_length, end_root, path_pop}
use pumpkin_os.Fat.Cwd.Push.{
  NoZero, Holds, strlen-Holds, Holds-length, pushed, path_push_lem, pushed-below, uncons,
}

-- No slash among the characters.
abbrev pub NoSlash : List ℕ → Type 0
NoSlash [] = Unit
NoSlash (c ∷ cs) = (c ≢ slash) × NoSlash cs

-- Over characters that are no slash, `back_up` goes down to `m`, where it stops at 1 or after a
-- slash.
back_up_lem :
    (buf : List ℕ) (m k n : ℕ)
    → n ≡ k + m
    → 0 < m
    → (m ≡ 1) ⊎ (get_or buf (m - 1) 0 ≡ slash)
    → ((i : ℕ) → m ≤ i → i < n → get_or buf i 0 ≢ slash)
    → back_up n buf ≡ m
unfolding back_up
back_up_lem buf m k zero e p stop free = absurd (omega arith)
back_up_lem buf m zero (suc n) e p (inl one) free =
    rw (le→ltb 1 (suc n) (omega arith)) (omega arith)
back_up_lem buf m zero (suc n) e p (inr at) free =
    let here : get_or buf n 0 ≡ slash = ap (λ j. get_or buf j 0) (omega arith) ∙ at in
    ground (arith, here)
back_up_lem buf m (suc k) (suc n) e p stop free =
    rw (lt→ltb 1 (suc n) (omega arith), ≢→== _ _ (free n (omega arith) (omega arith)))
      (back_up_lem buf m k n (omega arith) p stop (λ i a b. free i a (omega arith)))

get_or-past : (xs ys : List ℕ) (i j : ℕ) → i ≡ length xs + j → get_or (xs ++ ys) i 0 ≡ get_or ys j 0
get_or-past [] ys i j e = ap (λ i. get_or ys i 0) (e ∙ omega arith)
get_or-past (x ∷ xs) ys zero j e = absurd (omega arith)
get_or-past (x ∷ xs) ys (suc i) j e = get_or-past xs ys i j (omega arith)

NoSlash-get_or :
    (comp after : List ℕ)
    → NoSlash comp
    → (i : ℕ) → i < length comp
    → get_or (comp ++ after) i 0 ≢ slash
NoSlash-get_or [] after n i h = absurd (omega arith)
NoSlash-get_or (c ∷ comp) after (a, n) zero h = a
NoSlash-get_or (c ∷ comp) after (a, n) (suc i) h = NoSlash-get_or comp after n i (omega arith)

-- Above the last component the walk stops just after its slash.
back_up-last :
    (buf d comp : List ℕ) (h : Holds buf (d ++ slash ∷ comp))
    → NoSlash comp
    → back_up (strlen buf) buf ≡ length d + 1
back_up-last buf d comp h n =
    let text : buf ≡ d ++ slash ∷ (comp ++ 0 ∷ h.after) = h.is ∙ append_assoc d (slash ∷ comp) _ in
    back_up_lem buf (length d + 1) (length comp) (strlen buf)
      (omega (arith, strlen-Holds h, length-append d (slash ∷ comp))) (omega arith)
      (inr (
        ap (λ b. get_or b (length d + 1 - 1) 0) text
        ∙ get_or-past d (slash ∷ (comp ++ 0 ∷ h.after)) _ 0 (omega arith)))
      (λ i a b e.
        NoSlash-get_or comp (0 ∷ h.after) n (i - (length d + 1))
          (omega (arith, strlen-Holds h, length-append d (slash ∷ comp)))
          (sym (
              ap (λ b. get_or b i 0) text
              ∙ get_or-past d (slash ∷ (comp ++ 0 ∷ h.after)) i (suc (i - (length d + 1)))
                  (omega arith))
            ∙ e))

kept_length-below : (k : ℕ) → 0 < k → kept_length (suc k) ≡ k
unfolding kept_length
kept_length-below k p = ground arith

kept_length-one : kept_length 1 ≡ 1
unfolding kept_length
kept_length-one = refl

end_root_lem :
    (buf : List ℕ) (l : ℕ) → l < length buf → end_root buf l ≡ some (set (set buf l 0) 0 slash)
unfolding end_root
end_root_lem buf l h =
    rw (lt→ltb l _ h, end_root)
      (rw (lt→ltb 0 (length (set buf l 0)) (omega (arith, length-set buf l 0))) refl)

path_pop-at :
    (buf : List ℕ) (m l : ℕ)
    → back_up (strlen buf) buf ≡ m
    → kept_length m ≡ l
    → l < length buf
    → path_pop buf ≡ some (set (set buf l 0) 0 slash)
unfolding path_pop
path_pop-at buf m l e k h =
    ap (λ m. end_root buf (kept_length m)) e ∙ ap (end_root buf) k ∙ end_root_lem buf l h

-- Where the array holds an absolute path with a component below another, `path_pop` leaves the
-- path above that component.
pub path_pop-below :
    (buf d comp : List ℕ)
    → Holds buf ((slash ∷ d) ++ slash ∷ comp)
    → NoSlash comp
    → NoZero d
    → (buf' : List ℕ) × (path_pop buf ≡ some buf') × Holds buf' (slash ∷ d)
path_pop-below buf d comp h n nd =
    let full = Holds-length h in
    let size = length-append (slash ∷ d) (slash ∷ comp) in
    let rest = comp ++ 0 ∷ h.after in
    let text : buf ≡ (slash ∷ d) ++ slash ∷ rest =
      h.is ∙ append_assoc (slash ∷ d) (slash ∷ comp) _ in
    (
      slash ∷ (d ++ 0 ∷ rest),
      path_pop-at buf (length (slash ∷ d) + 1) (length (slash ∷ d))
            (back_up-last buf (slash ∷ d) comp h n)
            (ap kept_length (omega arith) ∙ kept_length-below (length (slash ∷ d)) (omega arith))
            (omega (arith, h.size))
          ∙ ap (λ b. some (set (set b (length (slash ∷ d)) 0) 0 slash)) text
          ∙ ap (λ b. some (set b 0 slash)) (set-append (slash ∷ d) rest slash 0 _ refl),
      record {
        after = rest;
        chars = (λ e. absurd (omega arith), nd);
        is = refl;
        size = omega (
          arith,
          h.size,
          ap length text,
          length-append (slash ∷ d) (slash ∷ rest),
          length-append (slash ∷ d) (0 ∷ rest),
        );
      },
    )

-- Where the array holds a component of the root, `path_pop` leaves the root.
pub path_pop-top :
    (buf comp : List ℕ)
    → Holds buf (slash ∷ comp)
    → NoSlash comp
    → (buf' : List ℕ) × (path_pop buf ≡ some buf') × Holds buf' (slash ∷ [])
path_pop-top buf comp h n =
    let text : buf ≡ slash ∷ (comp ++ 0 ∷ h.after) = h.is in
    let full = Holds-length h in
    let (y, ys, cut) =
      uncons (comp ++ 0 ∷ h.after) (omega (arith, length-append comp (0 ∷ h.after))) in
    let whole : buf ≡ slash ∷ (y ∷ ys) = text ∙ ap (λ t. slash ∷ t) cut in
    (
      slash ∷ (0 ∷ ys),
      path_pop-at buf 1 1 (back_up-last buf [] comp h n) kept_length-one (omega (arith, h.size))
          ∙ ap (λ b. some (set (set b 1 0) 0 slash)) whole,
      record {
        after = ys;
        chars = (λ e. absurd (omega arith), tt);
        is = refl;
        size = omega (arith, h.size, ap length whole);
      },
    )

take-all : (k : ℕ) (p : List ℕ) → length p ≤ k → take k p ≡ p
take-all zero [] h = refl
take-all zero (c ∷ p) h = absurd (omega arith)
take-all (suc k) [] h = refl
take-all (suc k) (c ∷ p) h = ap (λ q. c ∷ q) (take-all k p (omega arith))

-- Where the array holds an absolute path, and the path, a slash and a name without a slash or a
-- zero have at most 127 characters together, `path_push` of the name and then `path_pop` stay
-- inside the array and leave the old path.
pub path_pop-path_push :
    (name buf d : List ℕ)
    → Holds buf (slash ∷ d)
    → NoZero name
    → NoSlash name
    → length (slash ∷ d) + 1 + length name ≤ 127
    → (mid : List ℕ) × (buf' : List ℕ) × (path_push name buf ≡ some mid)
      × (path_pop mid ≡ some buf')
      × Holds buf' (slash ∷ d)
path_pop-path_push name buf [] h nn ns fit =
    let (mid, e, k) = path_push_lem name buf (slash ∷ []) h nn (omega arith) (omega arith) in
    let whole : pushed (slash ∷ []) name ≡ slash ∷ name =
      ap (λ t. slash ∷ t) (take-all 126 name (omega arith)) in
    let (buf', e', k') = path_pop-top mid name (subst (Holds mid) whole k) ns in
    (mid, buf', e, e', k')
path_pop-path_push name buf (c ∷ d) h nn ns fit =
    let p = slash ∷ (c ∷ d) in
    let (mid, e, k) = path_push_lem name buf p h nn (omega arith) (omega arith) in
    let whole : pushed p name ≡ p ++ slash ∷ name =
      pushed-below p name (omega arith)
      ∙ ap (λ t. (p ++ slash ∷ []) ++ t) (take-all (126 - length p) name (omega arith))
      ∙ append_assoc p (slash ∷ []) name in
    let (_, nd) = h.chars in
    let (buf', e', k') = path_pop-below mid (c ∷ d) name (subst (Holds mid) whole k) ns nd in
    (mid, buf', e, e', k')
