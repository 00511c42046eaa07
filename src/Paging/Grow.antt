-- ===== src/Paging/Grow.antt =====
-- A new page table of paging_map in mm/paging.c, which holds no page yet.
use pumpkin_os.Prelude.{
  ℕ, ◌+◌, ◌*◌, ◌%◌, ◌^◌, ◌<◌, bit_and, ◌≡◌, ◌≢◌, refl, sym, ap, ◌∙◌, subst, arith, true, false,
  ◌==◌, ==→≡, ==→≢, Bool-cases, inl, inr, update,
}
use pumpkin_os.Paging.{addr_mask, entry, is_present, zero_table, directory_word}
use pumpkin_os.Paging.Entries.{
  directory_word-is_present, directory_word-masked, zero_table-inside, zero_table-outside,
}
use pumpkin_os.Paging.Valid.{
  IsValid, table_of, lookup, apart_frames, update-else, update-same, aligned_table,
}

-- A frame that is no table yet.
pub record IsFresh (w : ℕ → ℕ) (d q : ℕ) : Type 0 where
  pub whole : q % 4096 ≡ 0
  pub in_range : q < 2 ^ 32
  pub not_directory : q ≢ d
  pub not_table : (i : ℕ) → i < 1024 → is_present (entry w d i) ≡ true → table_of w d i ≢ q

module _ (w : ℕ → ℕ) (d i q flags : ℕ) (valid : IsValid w d) (fresh : IsFresh w d q) (hi : i < 1024)
    (missing : is_present (entry w d i) ≡ false) where
  abbrev made : ℕ → ℕ
  made = update (d + 4 * i) (directory_word q flags) (zero_table q w)

  outside : (t j : ℕ) → t % 4096 ≡ 0 → t ≢ q → j < 1024 → zero_table q w (t + 4 * j) ≡ entry w t j
  outside t j ha n hj =
      zero_table-outside q (t + 4 * j) w (λ m hm. apart_frames t q j m ha fresh.whole hj hm n)

  made-here : entry made d i ≡ directory_word q flags
  made-here = update-same (d + 4 * i) (directory_word q flags) (zero_table q w)

  made-there : (j : ℕ) → j < 1024 → j ≢ i → entry made d j ≡ entry w d j
  made-there j hj n =
      update-else (d + 4 * j) (d + 4 * i) (directory_word q flags) (zero_table q w)
        (λ e. n (omega arith))
      ∙ outside d j valid.aligned (λ e. fresh.not_directory (sym e)) hj

  pub made-is_present : is_present (entry made d i) ≡ true
  made-is_present = ap is_present made-here ∙ directory_word-is_present q flags

  pub made-table : table_of made d i ≡ q
  made-table =
      ap (λ x. bit_and x addr_mask) made-here
      ∙ directory_word-masked q flags fresh.whole fresh.in_range

  -- The tables of the other entries, which are as before.
  pub old_table :
      (j : ℕ)
      → j < 1024
      → j ≢ i
      → is_present (entry made d j) ≡ true
      → (is_present (entry w d j) ≡ true) × (table_of made d j ≡ table_of w d j)
  old_table j hj n p =
      let e = made-there j hj n in (ap is_present (sym e) ∙ p, ap (λ x. bit_and x addr_mask) e)

  apart_directory_made :
      (j : ℕ) → j < 1024 → is_present (entry made d j) ≡ true → table_of made d j ≢ d
  apart_directory_made j hj p e = elim (Bool-cases (j == i)) [
    | inl h ↦
        let x : table_of made d i ≡ d = subst (λ (m : ℕ). table_of made d m ≡ d) (==→≡ j i h) e in
        fresh.not_directory (sym made-table ∙ x)
    | inr h ↦ let o = old_table j hj (==→≢ j i h) p in valid.apart_directory j hj o.0 (sym o.1 ∙ e)
  ]

  clash :
      (j : ℕ)
      → j < 1024
      → j ≢ i
      → is_present (entry made d j) ≡ true
      → table_of made d j ≢ table_of made d i
  clash j hj n p e =
      let o = old_table j hj n p in fresh.not_table j hj o.0 (sym o.1 ∙ e ∙ made-table)

  pub made-IsValid : IsValid made d
  made-IsValid = record {
    aligned = valid.aligned;
    apart_directory = apart_directory_made;
    apart_tables = λ j m hj hm p p' e. elim (Bool-cases (j == i)) [
      | inl a ↦ elim (Bool-cases (m == i)) [
        | inl b ↦ ==→≡ j i a ∙ sym (==→≡ m i b)
        | inr b ↦ absurd (clash m hm (==→≢ m i b) p' (sym e ∙ ap (table_of made d) (==→≡ j i a)))
      ]
      | inr a ↦ elim (Bool-cases (m == i)) [
        | inl b ↦ absurd (clash j hj (==→≢ j i a) p (e ∙ ap (table_of made d) (==→≡ m i b)))
        | inr b ↦
            let x = old_table j hj (==→≢ j i a) p in
            let y = old_table m hm (==→≢ m i b) p' in
            valid.apart_tables j m hj hm x.0 y.0 (sym x.1 ∙ e ∙ y.1)
      ]
    ];
  }

  elsewhere :
      (t m : ℕ) → t % 4096 ≡ 0 → t ≢ d → m < 1024 → entry made t m ≡ zero_table q w (t + 4 * m)
  elsewhere t m ha n hm =
      update-else (t + 4 * m) (d + 4 * i) (directory_word q flags) (zero_table q w)
        (apart_frames t d m i ha valid.aligned hm hi n)

  lookup-made_here : (m : ℕ) → m < 1024 → lookup made d i m ≡ lookup w d i m
  lookup-made_here m hm =
      let old : lookup w d i m ≡ 0 = rw missing refl in
      let new : lookup made d i m ≡ entry made (table_of made d i) m = rw made-is_present refl in
      new
      ∙ ap (λ (t : ℕ). entry made t m) made-table
      ∙ elsewhere q m fresh.whole fresh.not_directory hm
      ∙ zero_table-inside q m w hm
      ∙ sym old

  lookup-made_there : (j m : ℕ) → j < 1024 → m < 1024 → j ≢ i → lookup made d j m ≡ lookup w d j m
  lookup-made_there j m hj hm n =
      let same = made-there j hj n in
      elim (Bool-cases (is_present (entry w d j))) [
        | inl e ↦
            let t = table_of w d j in
            let move : entry made t m ≡ entry w t m =
              elsewhere t m (aligned_table (entry w d j)) (valid.apart_directory j hj e) hm
              ∙ outside t m (aligned_table (entry w d j)) (fresh.not_table j hj e) hm in
            let old : lookup w d j m ≡ entry w t m = rw e refl in
            let new : lookup made d j m ≡ entry made t m = rw (same, e) refl in new ∙ move ∙ sym old
        | inr e ↦
            let old : lookup w d j m ≡ 0 = rw e refl in
            let new : lookup made d j m ≡ 0 = rw (same, e) refl in new ∙ sym old
      ]

  -- A new table changes the word of no page.
  pub lookup-made : (j m : ℕ) → j < 1024 → m < 1024 → lookup made d j m ≡ lookup w d j m
  lookup-made j m hj hm = elim (Bool-cases (j == i)) [
    | inl e ↦
        subst (λ (x : ℕ). lookup made d x m ≡ lookup w d x m) (sym (==→≡ j i e))
          (lookup-made_here m hm)
    | inr e ↦ lookup-made_there j m hj hm (==→≢ j i e)
  ]
