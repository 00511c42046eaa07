-- ===== src/Paging/Owned.antt =====
-- The page tables of mm/paging.c as frames that mm/pmm.c handed out.
use pumpkin_os.Prelude.{
  ℕ, ◌+◌, ◌*◌, ◌%◌, ◌^◌, ◌<◌, bit_and, ◌≡◌, ◌≢◌, refl, sym, ap, ◌∙◌, subst, Bool, true, false, ◌==◌,
  if◌then◌else◌, ==→≡, ==→≢, Bool-cases, inl, inr, update,
}
use pumpkin_os.Paging.{
  Paging, Frames, addr_mask, entry, is_present, zero_table, directory_word, flush, set_entry,
}
use pumpkin_os.Paging.Valid.{IsValid, table_of, put-entry}
use pumpkin_os.Paging.Grow.{IsFresh, made-table, old_table}
use pumpkin_os.Paging.Translate.{set_entry_lem}

-- What mm/pmm.c promises: a frame that it hands out is whole, below 4 GiB, and not handed out before.
pub record IsSupply {S : Type 0} (fr : Frames S) (owned : S → ℕ → Type 0) : Type 0 where
  pub whole : (s : S) → (fr.alloc_frame s).0 % 4096 ≡ 0
  pub in_range : (s : S) → (fr.alloc_frame s).0 < 2 ^ 32
  pub new : (s : S) (x : ℕ) → (fr.alloc_frame s).0 ≢ 0 → owned s x → x ≢ (fr.alloc_frame s).0
  pub takes : (s : S) → (fr.alloc_frame s).0 ≢ 0 → owned (fr.alloc_frame s).1 (fr.alloc_frame s).0
  pub keeps : (s : S) (x : ℕ) → owned s x → owned (fr.alloc_frame s).1 x

module _ {S : Type 0} (fr : Frames S) (owned : S → ℕ → Type 0) (supply : IsSupply fr owned) where
  -- The tables that a state has are frames of `s`.
  abbrev pub Owns : S → (ℕ → ℕ) → ℕ → Type 0
  Owns s w d = (i : ℕ) → i < 1024 → is_present (entry w d i) ≡ true → owned s (table_of w d i)

  Owns-agree :
      (s : S) (u w : ℕ → ℕ) (d : ℕ)
      → ((i : ℕ) → i < 1024 → entry u d i ≡ entry w d i)
      → Owns s w d
      → Owns s u d
  Owns-agree s u w d same o i hi t =
      let e = same i hi in
      subst (λ (x : ℕ). owned s (bit_and x addr_mask)) (sym e) (o i hi (ap is_present (sym e) ∙ t))

  pub Owns-made :
      (w : ℕ → ℕ) (d i flags : ℕ) (s : S)
      → (valid : IsValid w d) → (fresh : IsFresh w d (fr.alloc_frame s).0) → (hi : i < 1024)
      → (missing : is_present (entry w d i) ≡ false) → (fr.alloc_frame s).0 ≢ 0
      → Owns s w d
      → Owns
          (fr.alloc_frame s).1
          (update
            (d + 4 * i)
            (directory_word (fr.alloc_frame s).0 flags)
            (zero_table (fr.alloc_frame s).0 w))
          d
  Owns-made w d i flags s valid fresh hi missing ne o j hj t =
      let q = (fr.alloc_frame s).0 in
      let made = update (d + 4 * i) (directory_word q flags) (zero_table q w) in
      elim (Bool-cases (j == i)) [
        | inl e ↦
            subst (λ (x : ℕ). owned (fr.alloc_frame s).1 (table_of made d x)) (sym (==→≡ j i e))
              (subst (λ (x : ℕ). owned (fr.alloc_frame s).1 x)
                (sym (made-table w d i q flags valid fresh hi missing)) (supply.takes s ne))
        | inr e ↦
            let old = old_table w d i q flags valid fresh hi missing j hj (==→≢ j i e) t in
            subst (λ (x : ℕ). owned (fr.alloc_frame s).1 x) (sym old.1)
              (supply.keeps s (table_of w d j) (o j hj old.0))
      ]

  pub set_entry-frames : (pt i v : ℕ) (p : Paging S) → (set_entry pt i v p).frames ≡ p.frames
  unfolding set_entry flush
  set_entry-frames pt i v p = elim (Bool-cases p.enabled) [ inl e ↦ rw e refl | inr e ↦ rw e refl ]

  abbrev pub OwnsAll : Paging S → Type 0
  OwnsAll p = owned p.frames p.page_directory × Owns p.frames p.words p.page_directory

  pub set_entry-OwnsAll :
      (i k v : ℕ) (p : Paging S)
      → IsValid p.words p.page_directory
      → i < 1024
      → k < 1024
      → is_present (entry p.words p.page_directory i) ≡ true
      → OwnsAll p
      → OwnsAll (set_entry (table_of p.words p.page_directory i) k v p)
  set_entry-OwnsAll i k v p valid hi hk there o =
      let pt = table_of p.words p.page_directory i in
      let q = set_entry pt k v p in
      let e = set_entry_lem pt k v p in
      let f = set_entry-frames pt k v p in
      let new = update (pt + 4 * k) v p.words in
      let moved : Owns p.frames new p.page_directory =
        Owns-agree p.frames new p.words p.page_directory
          (put-entry p.words p.page_directory i k v valid hi hk there) o.1 in
      (
        subst (λ (x : S). owned x q.page_directory) (sym f)
            (subst (λ (x : ℕ). owned p.frames x) (sym e.1) o.0),
        subst (λ (x : S). Owns x q.words q.page_directory) (sym f)
            (subst (λ (x : ℕ). Owns p.frames q.words x) (sym e.1)
              (subst (λ (x : ℕ → ℕ). Owns p.frames x p.page_directory) (sym e.0) moved)),
      )

  pub choose_OwnsAll :
      (b : Bool) (x y : Bool × Paging S)
      → (b ≡ true → OwnsAll x.1)
      → (b ≡ false → OwnsAll y.1)
      → OwnsAll (if b then x else y).1
  choose_OwnsAll true x y f g = f refl
  choose_OwnsAll false x y f g = g refl
