-- ===== src/Paging/Valid.antt =====
-- The tables of mm/paging.c as a map from pages to words, and what keeps the tables apart.
use pumpkin_os.Prelude.{
  ℕ, ◌+◌, ◌*◌, ◌%◌, ◌<◌, bit_and, ◌≡◌, ◌≢◌, refl, sym, ap, ◌∙◌, arith, true, false, ◌&&◌, ◌==◌,
  if◌then◌else◌, ≢→==, ==→≡, ==→≢, ==_refl, Bool-cases, inl, inr, update,
}
use pumpkin_os.Paging.{addr_mask, entry, is_present}
use pumpkin_os.Paging.Entries.{masked}

-- The table that an entry of the directory points at.
abbrev pub table_of : (ℕ → ℕ) → ℕ → ℕ → ℕ
table_of w d i = bit_and (entry w d i) addr_mask

-- The directory and the tables that are present are different frames.
pub record IsValid (w : ℕ → ℕ) (d : ℕ) : Type 0 where
  pub aligned : d % 4096 ≡ 0
  pub apart_directory : (i : ℕ) → i < 1024 → is_present (entry w d i) ≡ true → table_of w d i ≢ d
  pub apart_tables :
      (i j : ℕ)
      → i < 1024
      → j < 1024
      → is_present (entry w d i) ≡ true
      → is_present (entry w d j) ≡ true
      → table_of w d i ≡ table_of w d j
      → i ≡ j

-- The word for the page `k` of the stretch `i`; 0 where the table is not there.
abbrev pub lookup : (ℕ → ℕ) → ℕ → ℕ → ℕ → ℕ
lookup w d i k = if is_present (entry w d i) then entry w (table_of w d i) k else 0

pub aligned_table : (v : ℕ) → bit_and v addr_mask % 4096 ≡ 0
aligned_table v = omega (arith, masked v)

-- Entries of two frames, or two entries of one frame, lie apart.
pub apart_frames :
    (a b i j : ℕ)
    → a % 4096 ≡ 0
    → b % 4096 ≡ 0
    → i < 1024
    → j < 1024
    → a ≢ b
    → a + 4 * i ≢ b + 4 * j
apart_frames a b i j ha hb hi hj n = λ e. n (omega arith)

pub update-else : (a b v : ℕ) (w : ℕ → ℕ) → a ≢ b → update b v w a ≡ w a
update-else a b v w n = let e : (a == b) ≡ false = ≢→== a b n in rw e refl

pub update-same : (b v : ℕ) (w : ℕ → ℕ) → update b v w b ≡ v
update-same b v w = rw (==_refl b) refl

module _ (w : ℕ → ℕ) (d i k v : ℕ) (valid : IsValid w d) (hi : i < 1024) (hk : k < 1024)
    (there : is_present (entry w d i) ≡ true) where
  abbrev put : ℕ → ℕ
  put = update (table_of w d i + 4 * k) v w

  pub put-entry : (j : ℕ) → j < 1024 → entry put d j ≡ entry w d j
  put-entry j hj = update-else (d + 4 * j) (table_of w d i + 4 * k) v w (
      apart_frames d (table_of w d i) j k valid.aligned (aligned_table (entry w d i)) hj hk
        (λ e. valid.apart_directory i hi there (sym e)))

  pub put-IsValid : IsValid put d
  put-IsValid = record {
    aligned = valid.aligned;
    apart_directory = λ j hj p.
        let same = put-entry j hj in
        let q : is_present (entry w d j) ≡ true = ap is_present (sym same) ∙ p in
        rw same (valid.apart_directory j hj q);
    apart_tables = λ j m hj hm p p' e.
        let sj = put-entry j hj in
        let sm = put-entry m hm in
        valid.apart_tables j m hj hm (ap is_present (sym sj) ∙ p) (ap is_present (sym sm) ∙ p')
          (ap (λ x. bit_and x addr_mask) (sym sj) ∙ e ∙ ap (λ x. bit_and x addr_mask) sm);
  }

  lookup-put_here : (m : ℕ) → m < 1024 → lookup put d i m ≡ (if m == k then v else lookup w d i m)
  lookup-put_here m hm =
      rw (put-entry i hi, there)
        (elim (Bool-cases (m == k)) [
          | inl e ↦ rw e (rw (==→≡ m k e) (update-same (table_of w d i + 4 * k) v w))
          | inr e ↦ rw e (
              update-else (table_of w d i + 4 * m) (table_of w d i + 4 * k) v w
                (λ x. ==→≢ m k e (omega arith)))
        ])

  lookup-put_there : (j m : ℕ) → j < 1024 → m < 1024 → j ≢ i → lookup put d j m ≡ lookup w d j m
  lookup-put_there j m hj hm n = rw (put-entry j hj) (elim (Bool-cases (is_present (entry w d j))) [
    | inl e ↦ rw e (
        update-else (table_of w d j + 4 * m) (table_of w d i + 4 * k) v w (
          apart_frames (table_of w d j) (table_of w d i) m k (aligned_table (entry w d j))
            (aligned_table (entry w d i)) hm hk (λ x. n (valid.apart_tables j i hj hi e there x))))
    | inr e ↦ rw e refl
  ])

  -- Setting an entry of a table changes the word of that page, and of no other.
  pub lookup-put :
      (j m : ℕ)
      → j < 1024
      → m < 1024
      → lookup put d j m ≡ (if (j == i) && (m == k) then v else lookup w d j m)
  lookup-put j m hj hm = elim (Bool-cases (j == i)) [
    | inl e ↦ rw e (rw (==→≡ j i e) (lookup-put_here m hm))
    | inr e ↦ rw e (lookup-put_there j m hj hm (==→≢ j i e))
  ]
