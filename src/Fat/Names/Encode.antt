-- ===== src/Fat/Names/Encode.antt =====
-- `to_83` of fs/fat12.c: the padded base and extension in capitals.
use pumpkin_os.Prelude.{ℕ, suc, ◌+◌, ◌-◌, ◌≤◌, ◌≡◌, ◌≢◌, refl, arith, ap, ◌∙◌, sym}
use pumpkin_os.Prelude.{◌==◌, ◌⊎◌, ◌||◌, leb, ltb, true, false, inl, inr}
use pumpkin_os.Prelude.{List, [], ◌∷◌, ◌++◌, length, replicate, append-nil, append_assoc}
use pumpkin_os.Prelude.{map, length-append, length-replicate, set-append}
use pumpkin_os.Fat.Names.{space, upper, write_base, write_ext, to_83}

-- The characters of a base or an extension: no dot.
abbrev pub NoDot : List ℕ → Type 0
NoDot [] = Unit
NoDot (c ∷ cs) = (c ≢ b'.') × NoDot cs

abbrev pub spaces : ℕ → List ℕ
spaces n = replicate n space

snoc : (xs ys : List ℕ) (y : ℕ) → (xs ++ y ∷ []) ++ ys ≡ xs ++ y ∷ ys
snoc xs ys y = append_assoc xs (y ∷ []) ys

length-snoc : (xs : List ℕ) (y : ℕ) → length (xs ++ y ∷ []) ≡ length xs + 1
length-snoc xs y = length-append xs (y ∷ [])

-- Where the base stops: at the end of the name, or at a dot.
abbrev pub IsStop : List ℕ → Type 0
IsStop rest = (rest ≡ []) ⊎ ((r : List ℕ) × (rest ≡ b'.' ∷ r))

write_base-stop : (rest out : List ℕ) (i : ℕ) → IsStop rest → write_base rest i out ≡ (rest, out)
unfolding write_base
write_base-stop rest out i (inl e) = rw e
write_base-stop rest out i (inr (r, e)) = rw e

-- The base goes over the first spaces.
write_base_lem :
    (base done tail rest : List ℕ) (i k : ℕ)
    → NoDot base
    → i ≡ length done
    → i + length base + k ≡ 8
    → IsStop rest
    → write_base (base ++ rest) i (done ++ (spaces (length base + k) ++ tail))
      ≡ (rest, done ++ (map upper base ++ (spaces k ++ tail)))
unfolding write_base
write_base_lem [] done tail rest i k n e h r =
    let z : 0 + k ≡ k = omega arith in rw z (write_base-stop rest _ i r)
write_base_lem (c ∷ base) done tail rest i k (n, ns) e h r =
    let more : suc (length base) + k ≡ suc (length base + k) = omega arith in
    let after = spaces (length base + k) ++ tail in
    let go : (c == b'.' || leb 8 i) ≡ false = ground arith in
    rw (more, go, set-append done after space (upper c) i e, ← snoc done after (upper c))
      (write_base_lem base (done ++ upper c ∷ []) tail rest (i + 1) k ns (e' done i e) (omega arith)
          r
        ∙ ap (λ l. (rest, l)) (snoc done (map upper base ++ (spaces k ++ tail)) (upper c)))
  where
    e' : (done : List ℕ) (i : ℕ) → i ≡ length done → i + 1 ≡ length (done ++ upper c ∷ [])
    e' done i e = omega (arith, length-snoc done (upper c))

write_ext_lem :
    (ext done : List ℕ) (j k : ℕ)
    → j ≡ length done
    → j + length ext + k ≡ 11
    → write_ext ext j (done ++ spaces (length ext + k)) ≡ done ++ (map upper ext ++ spaces k)
unfolding write_ext
write_ext_lem [] done j k e h = let z : 0 + k ≡ k = omega arith in rw z
write_ext_lem (c ∷ ext) done j k e h =
    let more : suc (length ext) + k ≡ suc (length ext + k) = omega arith in
    let after = spaces (length ext + k) in
    let go : ltb j 11 ≡ true = ground arith in
    let e' : j + 1 ≡ length (done ++ upper c ∷ []) = omega (arith, length-snoc done (upper c)) in
    rw (more, go, set-append done after space (upper c) j e, ← snoc done after (upper c))
      (write_ext_lem ext (done ++ upper c ∷ []) (j + 1) k e' (omega arith)
        ∙ snoc done (map upper ext ++ spaces k) (upper c))

-- The bytes for a base and an extension.
abbrev pub padded : List ℕ → List ℕ → List ℕ
padded base ext =
    (map upper base ++ spaces (8 - length base)) ++ (map upper ext ++ spaces (3 - length ext))

eleven : spaces 11 ≡ spaces 8 ++ spaces 3
eleven = refl

base_bytes :
    (base rest : List ℕ)
    → NoDot base
    → length base ≤ 8
    → IsStop rest
    → write_base (base ++ rest) 0 (spaces 11)
      ≡ (rest, (map upper base ++ spaces (8 - length base)) ++ spaces 3)
base_bytes base rest n h r =
    let e : 8 ≡ length base + (8 - length base) = omega arith in
    ap (λ l. write_base (base ++ rest) 0 (spaces l ++ spaces 3)) e
    ∙ write_base_lem base [] (spaces 3) rest 0 (8 - length base) n refl (omega arith) r
    ∙ ap (λ l. (rest, l))
        (sym (append_assoc (map upper base) (spaces (8 - length base)) (spaces 3)))

length-spaces : (n : ℕ) → length (spaces n) ≡ n
length-spaces n = length-replicate {A = ℕ} n space

length-upper : (cs : List ℕ) → length (map upper cs) ≡ length cs
length-upper [] = refl
length-upper (c ∷ cs) = ap suc (length-upper cs)

pub length-padded_base :
    (base : List ℕ) → length base ≤ 8 → length (map upper base ++ spaces (8 - length base)) ≡ 8
length-padded_base base h = omega (
  arith,
  length-append (map upper base) (spaces (8 - length base)),
  length-upper base,
  length-spaces (8 - length base),
)

-- A base of at most 8 characters without a dot, and an extension of at most 3: `to_83` writes both
-- in capitals, padded by spaces to 8 and 3 bytes.
pub to_83_lem :
    (base ext : List ℕ)
    → NoDot base
    → length base ≤ 8
    → length ext ≤ 3
    → to_83 (base ++ b'.' ∷ ext) ≡ padded base ext
unfolding to_83
to_83_lem base ext n hb he =
    let e : 3 ≡ length ext + (3 - length ext) = omega arith in
    let done = map upper base ++ spaces (8 - length base) in
    rw (base_bytes base (b'.' ∷ ext) n hb (inr (ext, refl))) (
      ap (λ l. write_ext ext 8 (done ++ spaces l)) e
      ∙ write_ext_lem ext done 8 (3 - length ext) (sym (length-padded_base base hb)) (omega arith))

pub to_83-base : (base : List ℕ) → NoDot base → length base ≤ 8 → to_83 base ≡ padded base []
unfolding to_83
to_83-base base n hb =
    let run = base_bytes base [] n hb (inl refl) in rw (rw append-nil at run) refl
