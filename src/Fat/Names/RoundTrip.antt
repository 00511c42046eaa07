-- ===== src/Fat/Names/RoundTrip.antt =====
-- `format_name` of fs/fat12.c shows the bytes that `to_83` writes for a name.
use pumpkin_os.Prelude.{ℕ, zero, suc, ◌+◌, ◌-◌, ◌≤◌, ◌≡◌, ◌≢◌, refl, arith, ap, ◌∙◌, sym}
use pumpkin_os.Prelude.{≢→==}
use pumpkin_os.Prelude.{List, [], ◌∷◌, ◌++◌, length, get_or, append-nil, append_assoc}
use pumpkin_os.Prelude.{map, length-append, get_or-append, map-append}
use pumpkin_os.Fat.Names.{space, upper, to_83, copy_until_space, format_name}
use pumpkin_os.Fat.Names.Encode.{NoDot, spaces, padded, length-padded_base, to_83_lem, to_83-base}

abbrev pub NoSpace : List ℕ → Type 0
NoSpace [] = Unit
NoSpace (c ∷ cs) = (c ≢ space) × NoSpace cs

upper-dot : upper b'.' ≡ b'.'
unfolding upper
upper-dot = refl

upper-ne : (c : ℕ) → c ≢ space → upper c ≢ space
unfolding upper
upper-ne c h = ground arith

-- A field is copied up to its padding.
copy_field :
    (cs done tail : List ℕ) (j k n : ℕ)
    → NoSpace cs
    → j ≡ length done
    → n ≡ length cs + k
    → copy_until_space (done ++ (map upper cs ++ (spaces k ++ tail))) n j ≡ map upper cs
unfolding copy_until_space
copy_field [] done tail j k zero ns e h = refl
copy_field [] done tail j zero (suc n) ns e h = absurd (omega arith)
copy_field [] done tail j (suc k) (suc n) ns e h =
    rw (get_or-append done (space ∷ (spaces k ++ tail)) j 0 e) refl
copy_field (c ∷ cs) done tail j k zero ns e h = absurd (omega arith)
copy_field (c ∷ cs) done tail j k (suc n) (ne, ns) e h =
    let after = map upper cs ++ (spaces k ++ tail) in
    let step : j + 1 ≡ length (done ++ upper c ∷ []) =
      omega (arith, length-append done (upper c ∷ [])) in
    rw (get_or-append done (upper c ∷ after) j 0 e, ≢→== (upper c) space (upper-ne c ne))
      (ap (λ l. upper c ∷ copy_until_space l n (j + 1))
          (sym (append_assoc done (upper c ∷ []) after))
        ∙ ap (λ l. upper c ∷ l)
            (copy_field cs (done ++ upper c ∷ []) tail (j + 1) k n ns step (omega arith)))

module _ (base ext : List ℕ) (small : length base ≤ 8) (short : length ext ≤ 3)
    (plain : NoSpace base) (plain_ext : NoSpace ext) where
  field_one : List ℕ
  field_one = map upper base ++ spaces (8 - length base)

  copy_base : copy_until_space (padded base ext) 8 0 ≡ map upper base
  copy_base =
      ap (λ e. copy_until_space e 8 0)
        (append_assoc (map upper base) (spaces (8 - length base))
          (map upper ext ++ spaces (3 - length ext)))
      ∙ copy_field base [] (map upper ext ++ spaces (3 - length ext)) 0 (8 - length base) 8 plain
          refl (omega arith)

  copy_ext : copy_until_space (padded base ext) 3 8 ≡ map upper ext
  unfolding field_one
  copy_ext =
      ap (λ e. copy_until_space (field_one ++ (map upper ext ++ e)) 3 8)
        (sym (append-nil (spaces (3 - length ext))))
      ∙ copy_field ext field_one [] 8 (3 - length ext) 3 plain_ext
          (sym (length-padded_base base small)) (omega arith)

  byte_eight : get_or (padded base ext) 8 0 ≡ get_or (map upper ext ++ spaces (3 - length ext)) 0 0
  byte_eight =
      get_or-append (map upper base ++ spaces (8 - length base))
        (map upper ext ++ spaces (3 - length ext)) 8 0 (sym (length-padded_base base small))

format_padded :
    (base ext : List ℕ)
    → length base ≤ 8
    → length ext ≤ 3
    → NoSpace base
    → NoSpace ext
    → format_name (padded base ext)
      ≡ map upper base ++ elim ext [ [] ↦ [] | c ∷ r ↦ b'.' ∷ map upper (c ∷ r) ]
unfolding format_name
format_padded base [] small short plain plain_ext =
    rw
      (
        copy_base base [] small short plain plain_ext,
        byte_eight base [] small short plain plain_ext,
      )
      refl
format_padded base (c ∷ ext) small short plain plain_ext =
    rw
      (
        copy_base base (c ∷ ext) small short plain plain_ext,
        byte_eight base (c ∷ ext) small short plain plain_ext,
        ≢→== (upper c) space (upper-ne c plain_ext.0),
        copy_ext base (c ∷ ext) small short plain plain_ext,
      )
      refl

-- A name of a base of at most 8 characters, a dot and an extension of 1 to 3, without spaces and
-- with no dot in the base, comes back from `to_83` and `format_name` in capitals.
format_name-to_83 :
    (base : List ℕ) (c : ℕ) (ext : List ℕ)
    → NoDot base
    → NoSpace base
    → NoSpace (c ∷ ext)
    → length base ≤ 8
    → length (c ∷ ext) ≤ 3
    → format_name (to_83 (base ++ b'.' ∷ c ∷ ext)) ≡ map upper (base ++ b'.' ∷ c ∷ ext)
format_name-to_83 base c ext dots plain plain_ext small short =
    ap format_name (to_83_lem base (c ∷ ext) dots small short)
    ∙ format_padded base (c ∷ ext) small short plain plain_ext
    ∙ ap (λ d. map upper base ++ d ∷ map upper (c ∷ ext)) (sym upper-dot)
    ∙ sym (map-append upper base (b'.' ∷ c ∷ ext))

-- A name of at most 8 characters, without spaces and dots, comes back in capitals.
format_name-to_83_base :
    (base : List ℕ)
    → NoDot base
    → NoSpace base
    → length base ≤ 8
    → format_name (to_83 base) ≡ map upper base
format_name-to_83_base base dots plain small =
    ap format_name (to_83-base base dots small)
    ∙ format_padded base [] small (omega arith) plain tt
    ∙ append-nil (map upper base)
