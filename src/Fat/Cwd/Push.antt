-- ===== src/Fat/Cwd/Push.antt =====
-- `path_push` of fs/fat12.c: what it appends, and where it writes past the array.
use pumpkin_os.Prelude.{
  ℕ, zero, suc, ◌+◌, ◌-◌, ◌≤◌, ◌<◌, ◌≡◌, ◌≢◌, refl, arith, ap, ◌∙◌, sym, subst,
}
use pumpkin_os.Prelude.{◌==◌, ltb, if◌then◌else◌, ℕ_discrete, lt→ltb, le→ltb, ≢→==}
use pumpkin_os.Prelude.{
  List, [], ◌∷◌, ◌++◌, length, set, take, drop, append_assoc, append-nil, none, some,
}
use pumpkin_os.Prelude.{length-append, length-set, set-append, length-take, length-drop, true}
use pumpkin_os.Fat.Cwd.{cwd_size, slash, strlen, push_chars, push_rest, path_push}

-- No terminating zero among the characters.
abbrev pub NoZero : List ℕ → Type 0
NoZero [] = Unit
NoZero (c ∷ cs) = (c ≢ 0) × NoZero cs

-- The array holds the string `p`.
pub record Holds (buf p : List ℕ) : Type 0 where
  pub after : List ℕ
  pub chars : NoZero p
  pub is : buf ≡ p ++ (0 ∷ after)
  pub size : length buf ≡ cwd_size

strlen_lem : (p after : List ℕ) → NoZero p → strlen (p ++ (0 ∷ after)) ≡ length p
unfolding strlen
strlen_lem [] after n = refl
strlen_lem (c ∷ p) after (n, ns) = rw (≢→== c 0 n) (ap suc (strlen_lem p after ns))

pub strlen-Holds : {buf p : List ℕ} → Holds buf p → strlen buf ≡ length p
strlen-Holds {buf} {p} h = ap strlen h.is ∙ strlen_lem p h.after h.chars

pair : {a a' : ℕ} {b b' : List ℕ} → a ≡ a' → b ≡ b' → ◌≡◌ {A = ℕ × List ℕ} (a, b) (a', b')
pair p q = λ i. (p i, q i)

stops :
    (done tail : List ℕ) (l : ℕ)
    → ◌≡◌ {A = ℕ × List ℕ} (l, done ++ tail) (l + 0, (done ++ []) ++ tail)
stops done tail l = pair (omega arith) (ap (λ d. d ++ tail) (sym (append-nil done)))

-- The characters go over what follows, as far as index 126.
push_chars_lem :
    (name done tail : List ℕ) (l k : ℕ)
    → l ≡ length done
    → l + k ≡ 127
    → length tail ≡ k + 1
    → push_chars name l (done ++ tail)
      ≡ (l + length (take k name), (done ++ take k name) ++ drop (length (take k name)) tail)
unfolding push_chars
push_chars_lem [] done tail l zero e h s = stops done tail l
push_chars_lem [] done tail l (suc k) e h s = stops done tail l
push_chars_lem (c ∷ name) done tail l zero e h s =
    rw (le→ltb l 127 (omega arith)) (stops done tail l)
push_chars_lem (c ∷ name) done [] l (suc k) e h s = absurd (omega arith)
push_chars_lem (c ∷ name) done (t ∷ tail) l (suc k) e h s =
    let next : l + 1 ≡ length (done ++ c ∷ []) = omega (arith, length-append done (c ∷ [])) in
    let n = length (take k name) in
    rw (lt→ltb l 127 (omega arith), set-append done tail t c l e)
      (ap (λ b. push_chars name (l + 1) b) (sym (append_assoc done (c ∷ []) tail))
        ∙ push_chars_lem name (done ++ c ∷ []) tail (l + 1) k next (omega arith) (omega arith)
        ∙ pair (omega arith)
            (ap (λ b. b ++ drop n tail) (append_assoc done (c ∷ []) (take k name))))

pub NoZero-append : (p q : List ℕ) → NoZero p → NoZero q → NoZero (p ++ q)
NoZero-append [] q n m = m
NoZero-append (c ∷ p) q (h, n) m = (h, NoZero-append p q n m)

NoZero-take : (k : ℕ) (p : List ℕ) → NoZero p → NoZero (take k p)
NoZero-take zero p n = tt
NoZero-take (suc k) [] n = tt
NoZero-take (suc k) (c ∷ p) (h, n) = (h, NoZero-take k p n)

pub uncons : (xs : List ℕ) → 0 < length xs → (y : ℕ) × (ys : List ℕ) × (xs ≡ y ∷ ys)
uncons [] h = absurd (omega arith)
uncons (y ∷ ys) h = (y, ys, refl)

-- The zero goes over the character after the text.
finish :
    (name buf text ys : List ℕ) (l l' y : ℕ)
    → push_chars name l buf ≡ (l', text ++ y ∷ ys)
    → l' ≡ length text
    → push_rest name l buf ≡ some (text ++ 0 ∷ ys)
unfolding push_rest
finish name buf text ys l l' y e at =
    let inside : ltb l' (length (text ++ y ∷ ys)) ≡ true =
      lt→ltb _ _ (omega (arith, length-append text (y ∷ ys))) in
    rw (e, inside) (ap some (set-append text ys y 0 l' at))

-- `push_rest` ends the string after the characters that fit.
pub push_rest_lem :
    (name done tail : List ℕ) (l k : ℕ)
    → l ≡ length done
    → l + k ≡ 127
    → length tail ≡ k + 1
    → NoZero done
    → NoZero name
    → (buf : List ℕ) × (push_rest name l (done ++ tail) ≡ some buf)
      × Holds buf (done ++ take k name)
push_rest_lem name done tail l k e h s nd nn =
    let text = done ++ take k name in
    let n = length (take k name) in
    let short = length-take k name in
    let (y, ys, cut) = uncons (drop n tail) (omega (arith, length-drop n tail)) in
    let at : l + n ≡ length text = omega (arith, length-append done (take k name)) in
    let total : length (y ∷ ys) ≡ length tail - n = ap length (sym cut) ∙ length-drop n tail in
    (
      text ++ 0 ∷ ys,
      finish name (done ++ tail) text ys l (l + n) y
          (push_chars_lem name done tail l k e h s ∙ pair refl (ap (λ d. text ++ d) cut)) at,
      record {
        after = ys;
        chars = NoZero-append done (take k name) nd (NoZero-take k name nn);
        is = refl;
        size = omega (arith, total, length-append text (0 ∷ ys));
      },
    )

-- The path after a push: a slash unless the old path has one character, and the name, both cut
-- to 127 characters.
abbrev pub pushed : List ℕ → List ℕ → List ℕ
pushed p name =
    if length p == 1 then p ++ take 126 name else (p ++ slash ∷ []) ++ take (126 - length p) name

pub Holds-length : {buf p : List ℕ} (h : Holds buf p) → length p + suc (length h.after) ≡ 128
Holds-length {buf} {p} h = omega (arith, h.size, ap length h.is, length-append p (0 ∷ h.after))

pub pushed-root : (p name : List ℕ) → length p ≡ 1 → pushed p name ≡ p ++ take 126 name
pushed-root p name e = rw e refl

pub pushed-below :
    (p name : List ℕ)
    → length p ≢ 1
    → pushed p name ≡ (p ++ slash ∷ []) ++ take (126 - length p) name
pushed-below p name ne = rw (≢→== _ _ ne) refl

path_push-root : (name buf : List ℕ) → strlen buf ≡ 1 → path_push name buf ≡ push_rest name 1 buf
unfolding path_push
path_push-root name buf e = rw e refl

path_push-below :
    (name buf : List ℕ) (l : ℕ)
    → strlen buf ≡ l
    → l ≢ 1
    → l < length buf
    → path_push name buf ≡ push_rest name (l + 1) (set buf l slash)
unfolding path_push
path_push-below name buf l e ne h =
    rw (e, ≢→== _ _ ne, lt→ltb _ _ h) (ap (λ k. push_rest name (k + 1) (set buf l slash)) e)

set-slash :
    (buf p : List ℕ) (h : Holds buf p) → set buf (length p) slash ≡ (p ++ slash ∷ []) ++ h.after
set-slash buf p h =
    ap (λ b. set b (length p) slash) h.is
    ∙ set-append p h.after 0 slash (length p) refl
    ∙ sym (append_assoc p (slash ∷ []) h.after)

-- Where the array holds a path of 1 to 126 characters, `path_push` of a name without a zero stays
-- inside the array and leaves the path followed by a slash (unless the path has one character) and
-- by as much of the name as fits in 127 characters.
pub path_push_lem :
    (name buf p : List ℕ)
    → Holds buf p
    → NoZero name
    → 0 < length p
    → length p ≤ 126
    → (buf' : List ℕ) × (path_push name buf ≡ some buf') × Holds buf' (pushed p name)
path_push_lem name buf p h nn lo hi =
    let full = Holds-length h in
    elim (ℕ_discrete (length p) 1) [
      | yes e ↦
          let (b, r, k) =
            push_rest_lem name p (0 ∷ h.after) 1 126 (sym e) refl (omega arith) h.chars nn in
          (
            b,
            path_push-root name buf (strlen-Holds h ∙ e) ∙ ap (push_rest name 1) h.is ∙ r,
            subst (Holds b) (sym (pushed-root p name e)) k,
          )
      | no ne ↦
          let q = p ++ slash ∷ [] in
          let long : length q ≡ length p + 1 = omega (arith, length-append p (slash ∷ [])) in
          let (b, r, k) =
            push_rest_lem name q h.after (length p + 1) (126 - length p) (sym long) (omega arith)
              (omega arith) (NoZero-append p (slash ∷ []) h.chars (λ e. absurd (omega arith), tt))
              nn in
          (
            b,
            path_push-below name buf (length p) (strlen-Holds h) ne (omega (arith, h.size))
                ∙ ap (push_rest name (length p + 1)) (set-slash buf p h)
                ∙ r,
            subst (Holds b) (sym (pushed-below p name ne)) k,
          )
    ]

-- At 128 nothing more is copied, and the zero falls outside.
full_lem : (name buf : List ℕ) → length buf ≡ 128 → push_rest name 128 buf ≡ none
unfolding push_rest push_chars
full_lem [] buf e = rw (le→ltb 128 (length buf) (omega arith)) refl
full_lem (c ∷ name) buf e = rw (le→ltb 128 (length buf) (omega arith)) refl

-- Where the array holds a path of 127 characters, the most it has room for, `path_push` writes
-- past its end, whatever the name.
pub path_push-overflow :
    (name buf p : List ℕ) → Holds buf p → length p ≡ 127 → path_push name buf ≡ none
path_push-overflow name buf p h e =
    path_push-below name buf 127 (strlen-Holds h ∙ e) (omega arith) (omega (arith, h.size))
    ∙ full_lem name (set buf 127 slash) (length-set buf 127 slash ∙ h.size)
