-- ===== src/Net/Dns/Names.antt =====
-- `encode_name` and `skip_name` of net/dns.c: a name of labels, its wire form, and the way over it.
use pumpkin_os.Prelude.{
  ℕ, zero, suc, ◌+◌, ◌≤◌, ◌<◌, ◌≡◌, ◌≢◌, refl, sym, ap, ◌∙◌, arith, bit_and, ◌==◌, ≢→==, lt→ltb,
  le→ltb,
}
use pumpkin_os.Prelude.{false}
use pumpkin_os.Prelude.{List, [], ◌∷◌, ◌++◌, length, get_or, length-append, append_assoc, some}
use pumpkin_os.Prelude.Bits.{bit_and-le}
use pumpkin_os.Net.Dns.{
  dot, label, after_label, put_label, encode_labels, encode_name, skip_from, skip_name,
}

-- A label without dots.
abbrev pub NoDot : List ℕ → Type 0
NoDot [] = Unit
NoDot (c ∷ cs) = (c ≢ dot) × NoDot cs

-- Labels of 1 to 63 characters without dots.
abbrev pub Labels : List (List ℕ) → Type 0
Labels [] = Unit
Labels (l ∷ ls) = NoDot l × (1 ≤ length l) × (length l ≤ 63) × Labels ls

-- The labels, separated by dots.
abbrev pub join_from : List ℕ → List (List ℕ) → List ℕ
join_from l [] = l
join_from l (l' ∷ ls) = l ++ (dot ∷ join_from l' ls)

abbrev pub join : List (List ℕ) → List ℕ
join [] = []
join (l ∷ ls) = join_from l ls

-- The wire form of a name.
abbrev pub wire : List (List ℕ) → List ℕ
wire [] = 0 ∷ []
wire (l ∷ ls) = length l ∷ (l ++ wire ls)

label-end : (l : List ℕ) → NoDot l → (label l ≡ l) × (after_label l ≡ [])
unfolding label after_label
label-end [] n = (refl, refl)
label-end (c ∷ l) (h, n) = rw (≢→== c dot h) (ap (λ t. c ∷ t) (label-end l n).0, (label-end l n).1)

label-dot : (l p : List ℕ) → NoDot l → (label (l ++ dot ∷ p) ≡ l) × (after_label (l ++ dot ∷ p) ≡ p)
unfolding label after_label
label-dot [] p n = (refl, refl)
label-dot (c ∷ l) p (h, n) =
    rw (≢→== c dot h) (ap (λ t. c ∷ t) (label-dot l p n).0, (label-dot l p n).1)

-- One label in front of what is left.
one_label :
    (n : ℕ) (p l rest : List ℕ)
    → label p ≡ l
    → after_label p ≡ rest
    → 1 ≤ length l
    → length l ≤ 63
    → 1 ≤ length p
    → encode_labels (suc n) p ≡ put_label l (encode_labels n rest)
unfolding encode_labels
one_label n [] l rest e f h u q = absurd (omega arith)
one_label n (c ∷ p) l rest e f h u q =
    rw (e, f, ≢→== (length l) 0 (λ z. omega arith), le→ltb 63 (length l) u) refl

encode_labels-wire :
    (l : List ℕ) (ls : List (List ℕ)) (n : ℕ)
    → Labels (l ∷ ls)
    → length (join_from l ls) < n
    → encode_labels n (join_from l ls) ≡ some (wire (l ∷ ls))
unfolding encode_labels
encode_labels-wire l ls zero v h = absurd (omega arith)
encode_labels-wire l [] (suc zero) (nd, one, top, v) h = absurd (omega arith)
encode_labels-wire l [] (suc (suc n)) (nd, one, top, v) h =
    one_label (suc n) l l [] (label-end l nd).0 (label-end l nd).1 one top one
encode_labels-wire l (l' ∷ ls) (suc n) (nd, one, top, v) h =
    let rest = join_from l' ls in
    let split = label-dot l rest nd in
    let size = length-append l (dot ∷ rest) in
    one_label n (l ++ dot ∷ rest) l rest split.0 split.1 one top (omega (arith, size))
    ∙ ap (put_label l) (encode_labels-wire l' ls n v (omega (arith, size)))

drop_at : (pre xs : List ℕ) (x i : ℕ) → i ≡ length pre → get_or (pre ++ x ∷ xs) i 0 ≡ x
drop_at [] xs x i e = rw e refl
drop_at (y ∷ pre) xs x i e = rw e (drop_at pre xs x (length pre) refl)

-- A length of at most 63 has not the two high bits of a compression pointer.
not_pointer : (c : ℕ) → c ≤ 63 → (bit_and c 0xC0 == 0xC0) ≡ false
not_pointer c h = ≢→== _ _ (λ e. omega (arith, e, bit_and-le c 0xC0))

skip_step :
    (n p end c : ℕ) (f : List ℕ)
    → get_or f p 0 ≡ c
    → p < end
    → 1 ≤ c
    → c ≤ 63
    → skip_from (suc n) p end f ≡ skip_from n (p + (1 + c)) end f
unfolding skip_from
skip_step n p end c f e h l u =
    rw (e, lt→ltb p end h, ≢→== c 0 (λ z. omega arith), not_pointer c u) refl

-- The length and the label, moved to what lies before.
move :
    (pre l w post : List ℕ)
    → pre ++ ((length l ∷ (l ++ w)) ++ post) ≡ (pre ++ (length l ∷ l)) ++ (w ++ post)
move pre l w post =
    ap (λ t. pre ++ (length l ∷ t)) (append_assoc l w post)
    ∙ sym (append_assoc pre (length l ∷ l) (w ++ post))

skip_from-wire :
    (ls : List (List ℕ)) (pre post : List ℕ) (n p end : ℕ)
    → Labels ls
    → p ≡ length pre
    → p + length (wire ls) ≤ end
    → length (wire ls) ≤ n
    → skip_from n p end (pre ++ (wire ls ++ post)) ≡ p + length (wire ls)
unfolding skip_from
skip_from-wire [] pre post zero p end v e h u = absurd (omega arith)
skip_from-wire (l ∷ ls) pre post zero p end v e h u = absurd (omega arith)
skip_from-wire [] pre post (suc n) p end v e h u =
    rw (lt→ltb p end (omega arith), drop_at pre post 0 p e) refl
skip_from-wire (l ∷ ls) pre post (suc n) p end (nd, one, top, v) e h u =
    let f = pre ++ (wire (l ∷ ls) ++ post) in
    let size = length-append l (wire ls) in
    let p' = p + (1 + length l) in
    let at : p' ≡ length (pre ++ (length l ∷ l)) =
      omega (arith, length-append pre (length l ∷ l)) in
    skip_step n p end (length l) f (drop_at pre ((l ++ wire ls) ++ post) (length l) p e)
      (omega arith) one top
    ∙ ap (skip_from n p' end) (move pre l (wire ls) post)
    ∙ skip_from-wire ls (pre ++ (length l ∷ l)) post n p' end v at (omega (arith, size))
        (omega (arith, size))
    ∙ omega (arith, size)

-- A name of labels of 1 to 63 characters without dots, written with dots between them, is encoded
-- as its wire form, and `skip_name` from the start of that form, anywhere inside a message, leads to
-- the index just behind it.
pub encode_name-skip_name :
    (l : List ℕ) (ls : List (List ℕ)) (pre post : List ℕ) (end : ℕ)
    → Labels (l ∷ ls)
    → length pre + length (wire (l ∷ ls)) ≤ end
    → (encode_name (join (l ∷ ls)) ≡ some (wire (l ∷ ls)))
      × (skip_name (length pre) end (pre ++ (wire (l ∷ ls) ++ post))
          ≡ length pre + length (wire (l ∷ ls)))
unfolding encode_name skip_name
encode_name-skip_name l ls pre post end v h = (
  encode_labels-wire l ls (suc (length (join_from l ls))) v (omega arith),
  skip_from-wire (l ∷ ls) pre post end (length pre) end v refl h (omega arith),
)
