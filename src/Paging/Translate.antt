-- ===== src/Paging/Translate.antt =====
-- What paging_map and paging_unmap of mm/paging.c do to the addresses that paging_get_phys finds.
use pumpkin_os.Prelude.{
  ℕ, ◌+◌, ◌*◌, ◌/◌, ◌%◌, ◌^◌, ◌<◌, bit_and, bit_or, ◌≡◌, ◌≢◌, refl, sym, ap, ap₂, ◌∙◌, subst, arith,
  Bool, true, false, ◌&&◌, ◌==◌, if◌then◌else◌, ==→≡, ==→≢, Bool-cases, inl, inr, update,
}
use pumpkin_os.Prelude.Bits.{bit_and_mask}
use pumpkin_os.Paging.{
  Paging, Frames, addr_mask, entry, pdi, pti, is_present, zero_table, directory_word, table_word,
  flush, set_entry, paging_map, paging_unmap, paging_get_phys,
}
use pumpkin_os.Paging.Entries.{zero-is_present, table_word-is_present, table_word-masked}
use pumpkin_os.Paging.Valid.{IsValid, lookup, table_of, put-IsValid, lookup-put}
use pumpkin_os.Paging.Grow.{IsFresh, made-IsValid, made-is_present, made-table, lookup-made}

-- The address that a word of a table gives.
abbrev pub resolve : ℕ → ℕ → ℕ
resolve virt word =
    if is_present word then bit_or (bit_and word addr_mask) (bit_and virt 0xFFF) else 0xFFFF_FFFF

abbrev pub same_page : ℕ → ℕ → Bool
same_page a b = a / 2 ^ 12 == b / 2 ^ 12

pti_mod : (v : ℕ) → pti v ≡ v / 2 ^ 12 % 1024
pti_mod v = omega (arith, bit_and_mask 10 (v / 2 ^ 12))

-- The two indices of an address are its page.
same_page-indices : (a b : ℕ) → same_page a b ≡ ((pdi a == pdi b) && (pti a == pti b))
same_page-indices a b = ground (arith, pti_mod a, pti_mod b)

pub pdi-lt : (v : ℕ) → v < 2 ^ 32 → pdi v < 1024
pdi-lt v h = omega arith

pub pti-lt : (v : ℕ) → pti v < 1024
pti-lt v = omega (arith, pti_mod v)

resolve-table_word :
    (v phys flags : ℕ)
    → resolve v (table_word phys flags) ≡ bit_or (bit_and phys addr_mask) (bit_and v 0xFFF)
resolve-table_word v phys flags =
    rw (table_word-is_present phys flags, table_word-masked phys flags) refl

abbrev pub page_word : (ℕ → ℕ) → ℕ → ℕ → ℕ
page_word w d v = lookup w d (pdi v) (pti v)

module _ {S : Type 0} where
  pub paging_get_phys-resolve :
      (v : ℕ) (p : Paging S)
      → paging_get_phys v p ≡ resolve v (page_word p.words p.page_directory v)
  unfolding paging_get_phys
  paging_get_phys-resolve v p =
      elim (Bool-cases (is_present (p.words (p.page_directory + 4 * pdi v)))) [
        | inl e ↦ rw e refl
        | inr e ↦ rw e refl
      ]

  pub set_entry_lem :
      (pt i v : ℕ) (p : Paging S)
      → ((set_entry pt i v p).words ≡ update (pt + 4 * i) v p.words)
        × ((set_entry pt i v p).page_directory ≡ p.page_directory)
  unfolding set_entry flush
  set_entry_lem pt i v p = elim (Bool-cases p.enabled) [
    | inl e ↦ rw e (refl, refl)
    | inr e ↦ rw e (refl, refl)
  ]

  -- The page of `virt` gets the word, and the other pages keep theirs.
  abbrev pub Sets : ℕ → ℕ → Paging S → Paging S → Type 0
  Sets virt word p q =
      IsValid q.words q.page_directory
      × ((v : ℕ)
          → v < 2 ^ 32
          → paging_get_phys v q
            ≡ (if same_page v virt then resolve v word else paging_get_phys v p))

  set_entry-Sets :
      (virt word : ℕ) (p : Paging S)
      → virt < 2 ^ 32
      → IsValid p.words p.page_directory
      → is_present (entry p.words p.page_directory (pdi virt)) ≡ true
      → Sets virt word p
          (set_entry (table_of p.words p.page_directory (pdi virt)) (pti virt) word p)
  set_entry-Sets virt word p h valid there =
      let w = p.words in
      let d = p.page_directory in
      let i = pdi virt in
      let k = pti virt in
      let q = set_entry (table_of w d i) k word p in
      let new = update (table_of w d i + 4 * k) word w in
      let e = set_entry_lem (table_of w d i) k word p in
      (
        subst (λ (x : ℕ). IsValid q.words x) (sym e.1)
            (subst (λ (x : ℕ → ℕ). IsValid x d) (sym e.0)
              (put-IsValid w d i k word valid (pdi-lt virt h) (pti-lt virt) there)),
        λ v hv.
            let look =
              lookup-put w d i k word valid (pdi-lt virt h) (pti-lt virt) there (pdi v) (pti v)
                (pdi-lt v hv) (pti-lt v) in
            paging_get_phys-resolve v q
            ∙ ap₂ (λ (x : ℕ → ℕ) (y : ℕ). resolve v (page_word x y v)) e.0 e.1
            ∙ ap (resolve v) look
            ∙ rw (sym (same_page-indices v virt)) (elim (Bool-cases (same_page v virt)) [
              | inl x ↦ rw x refl
              | inr x ↦ rw x (sym (paging_get_phys-resolve v p))
            ]),
      )

  -- What `paging_map` does: it maps the page, or it lacks a table and a frame for one.
  pub data Outcome (fr : Frames S) (virt phys : ℕ) (p : Paging S) (r : Bool × Paging S)
      : Type 0 where
    maps :
        r.0 ≡ true
        → IsValid r.1.words r.1.page_directory
        → ((v : ℕ)
            → v < 2 ^ 32
            → paging_get_phys v r.1 ≡ (
                if same_page v virt
                then bit_or (bit_and phys addr_mask) (bit_and v 0xFFF)
                else paging_get_phys v p))
        → Outcome fr virt phys p r
    no_frame :
        r.0 ≡ false
        → (fr.alloc_frame p.frames).0 ≡ 0
        → is_present (entry p.words p.page_directory (pdi virt)) ≡ false
        → IsValid r.1.words r.1.page_directory
        → ((v : ℕ) → paging_get_phys v r.1 ≡ paging_get_phys v p)
        → Outcome fr virt phys p r

  Sets-maps :
      (fr : Frames S) (virt phys flags : ℕ) (p p' q : Paging S)
      → ((v : ℕ) → v < 2 ^ 32 → paging_get_phys v p' ≡ paging_get_phys v p)
      → Sets virt (table_word phys flags) p' q
      → Outcome fr virt phys p (true, q)
  Sets-maps fr virt phys flags p p' q same s = maps refl s.0 (λ v hv.
      s.1 v hv ∙ elim (Bool-cases (same_page v virt)) [
        | inl e ↦ rw e (resolve-table_word v phys flags)
        | inr e ↦ rw e (same v hv)
      ])

  -- The state of `paging_map` with a new table at `q`.
  abbrev pub with_table : ℕ → ℕ → ℕ → S → Paging S → Paging S
  with_table virt q flags frames p = record p {
    frames = frames;
    words =
        update (p.page_directory + 4 * pdi virt) (directory_word q flags) (zero_table q p.words);
  }

  with_table-Sets :
      (virt q flags word : ℕ) (frames : S) (p : Paging S)
      → virt < 2 ^ 32
      → IsValid p.words p.page_directory
      → IsFresh p.words p.page_directory q
      → is_present (entry p.words p.page_directory (pdi virt)) ≡ false
      → ((v : ℕ)
          → v < 2 ^ 32
          → paging_get_phys v (with_table virt q flags frames p) ≡ paging_get_phys v p)
        × Sets virt word
            (with_table virt q flags frames p)
            (set_entry q (pti virt) word (with_table virt q flags frames p))
  with_table-Sets virt q flags word frames p h valid fresh missing =
      let w = p.words in
      let d = p.page_directory in
      let i = pdi virt in
      let t = with_table virt q flags frames p in
      let hi = pdi-lt virt h in
      (
        λ v hv.
            paging_get_phys-resolve v t
            ∙ ap (resolve v) (
                lookup-made w d i q flags valid fresh hi missing (pdi v) (pti v) (pdi-lt v hv)
                  (pti-lt v))
            ∙ sym (paging_get_phys-resolve v p),
        subst (λ (x : ℕ). Sets virt word t (set_entry x (pti virt) word t))
            (made-table w d i q flags valid fresh hi missing)
            (set_entry-Sets virt word t h (made-IsValid w d i q flags valid fresh hi missing)
              (made-is_present w d i q flags valid fresh hi missing)),
      )

  -- Where the tables are valid, and the frame that mm/pmm.c offers is whole and no table yet unless
  -- it is 0, `paging_map` does one of two things. It succeeds: the tables are valid again, every
  -- address of the page of `virt` leads to the same place in the frame of `phys`, and every other
  -- address where it led before. Or there is no table for the page and no frame to make one: it
  -- reports that, the tables are still valid, and every address leads where it led.
  pub paging_map-Outcome :
      (fr : Frames S) (virt phys flags : ℕ) (p : Paging S)
      → virt < 2 ^ 32
      → IsValid p.words p.page_directory
      → ((fr.alloc_frame p.frames).0 ≢ 0
          → IsFresh p.words p.page_directory (fr.alloc_frame p.frames).0)
      → Outcome fr virt phys p (paging_map fr virt phys flags p)
  unfolding paging_map
  paging_map-Outcome fr virt phys flags p h valid fresh =
      let word = table_word phys flags in
      let q = (fr.alloc_frame p.frames).0 in
      elim (Bool-cases (is_present (entry p.words p.page_directory (pdi virt)))) [
        | inl e ↦ rw e (
            Sets-maps fr virt phys flags p p
              (set_entry (table_of p.words p.page_directory (pdi virt)) (pti virt) word p)
              (λ v hv. refl) (set_entry-Sets virt word p h valid e))
        | inr e ↦ elim (Bool-cases (q == 0)) [
          | inl z ↦
              rw (e, z)
                (no_frame refl (==→≡ q 0 z) e valid (λ v.
                  paging_get_phys-resolve v (record p { frames = (fr.alloc_frame p.frames).1 })
                  ∙ sym (paging_get_phys-resolve v p)))
          | inr z ↦
              let t = with_table virt q flags (fr.alloc_frame p.frames).1 p in
              let both =
                with_table-Sets virt q flags word (fr.alloc_frame p.frames).1 p h valid
                  (fresh (==→≢ q 0 z)) e in
              rw (e, z)
                (Sets-maps fr virt phys flags p t (set_entry q (pti virt) word t) both.0 both.1)
        ]
      ]

  no_table-nowhere :
      (virt v : ℕ) (p : Paging S)
      → is_present (entry p.words p.page_directory (pdi virt)) ≡ false
      → same_page v virt ≡ true
      → paging_get_phys v p ≡ 0xFFFF_FFFF
  no_table-nowhere virt v p e x =
      let page : v / 2 ^ 12 ≡ virt / 2 ^ 12 = ==→≡ (v / 2 ^ 12) (virt / 2 ^ 12) x in
      let same : pdi v ≡ pdi virt = omega (arith, page) in
      let gone : is_present (entry p.words p.page_directory (pdi v)) ≡ false = rw same e in
      paging_get_phys-resolve v p ∙ rw (gone, zero-is_present) refl

  -- Where the tables are valid they stay so under `paging_unmap`; the addresses of the page of
  -- `virt` then lead nowhere, and every other address where it led before.
  paging_unmap_lem :
      (virt : ℕ) (p : Paging S)
      → virt < 2 ^ 32
      → IsValid p.words p.page_directory
      → IsValid (paging_unmap virt p).words (paging_unmap virt p).page_directory
        × ((v : ℕ)
            → v < 2 ^ 32
            → paging_get_phys v (paging_unmap virt p)
              ≡ (if same_page v virt then 0xFFFF_FFFF else paging_get_phys v p))
  unfolding paging_unmap
  paging_unmap_lem virt p h valid =
      elim (Bool-cases (is_present (entry p.words p.page_directory (pdi virt)))) [
        | inl e ↦ rw e (set_entry-Sets virt 0 p h valid e)
        | inr e ↦ rw e (
          valid,
          λ v hv. elim (Bool-cases (same_page v virt)) [
            | inl x ↦ rw x (no_table-nowhere virt v p e x)
            | inr x ↦ rw x refl
          ],
        )
      ]
