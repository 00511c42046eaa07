-- ===== src/Pmm/Alloc.antt =====
-- `pmm_alloc_frame` and `pmm_free_frame` of mm/pmm.c: first fit, and exact.
use pumpkin_os.Prelude.{ℕ, zero, suc, ◌+◌, ◌-◌, ◌*◌, ◌/◌, ◌%◌, ◌^◌, ◌≤◌, ◌<◌, ◌≡◌, refl, ◌∙◌}
use pumpkin_os.Prelude.{ltb, leb, ◌==◌, arith, inl, inr, Option, none, some}
use pumpkin_os.Prelude.{
  Bool-cases, Option-cases, ==→≡, ==→≢, bit_and, subst, subst₂, ltb→lt, ltb→le, all_below,
  all_below_sound, true,
}
use pumpkin_os.Prelude.Bits.{bit}
use pumpkin_os.Pmm.{Pmm, word, frame_mark_used, scan_bits, scan_words, pmm_alloc_frame}
use pumpkin_os.Pmm.Bitmap.{used, IsValid, bit_and-pow-zero, bit_and-pow-ne}

-- `f` is the lowest free frame from `lo` on.
pub record IsFirstFree (s : Pmm) (lo f : ℕ) : Type 0 where
  pub from : lo ≤ f
  pub within : f < s.total_frames
  pub free : used s f ≡ 0
  pub below : (g : ℕ) → lo ≤ g → g < f → used s g ≡ 1

abbrev pub AllUsed : Pmm → ℕ → ℕ → Type 0
AllUsed s lo hi = (g : ℕ) → lo ≤ g → g < hi → g < s.total_frames → used s g ≡ 1

-- What a search of the frames from `lo` to `hi` finds.
abbrev pub Finds : Pmm → ℕ → ℕ → Option ℕ → Type 0
Finds s lo hi none = AllUsed s lo hi
Finds s lo hi (some f) = (f < hi) × IsFirstFree s lo f

used-word : (s : Pmm) (i b : ℕ) → b < 32 → used s (i * 32 + b) ≡ bit (word s i) b
used-word s i b h =
    let q : (i * 32 + b) / 32 ≡ i = omega arith in
    let r : (i * 32 + b) % 32 ≡ b = omega arith in rw (q, r)

-- One more used frame below what a search finds.
Finds-step :
    (s : Pmm) (hi lo : ℕ) (r : Option ℕ) → used s lo ≡ 1 → Finds s (lo + 1) hi r → Finds s lo hi r
Finds-step s hi lo none now later = λ g p q h. elim (Bool-cases (g == lo)) [
  | inl e ↦ rw (==→≡ g lo e) now
  | inr e ↦ later g (ground arith) q h
]
Finds-step s hi lo (some f) now (q, later) = (
  q,
  record {
    from = omega arith;
    within = later.within;
    free = later.free;
    below = λ g p h. elim (Bool-cases (g == lo)) [
      | inl e ↦ rw (==→≡ g lo e) now
      | inr e ↦ later.below g (ground arith) h
    ];
  },
)

scan_bits-Finds :
    (s : Pmm) (i left b : ℕ)
    → IsValid s
    → i ≤ 2 ^ 15
    → b + left ≡ 32
    → Finds s (i * 32 + b) (i * 32 + 32) (scan_bits s i left b)
unfolding scan_bits
scan_bits-Finds s i zero b v hi e = λ g p q h. absurd (omega arith)
scan_bits-Finds s i (suc left) b v hi e =
    let f : (i * 2 ^ 5 + b) % 2 ^ 32 ≡ i * 32 + b = omega arith in
    let a = i * 32 + b in
    rw f (elim (Bool-cases (leb s.total_frames a)) [
      | inl past ↦ rw past (λ g p q h. absurd (ground arith))
      | inr here ↦ elim (Bool-cases (bit_and (word s i) (2 ^ b) == 0)) [
        | inl free ↦
            rw (here, free)
              (
                omega arith,
                record {
                  from = omega arith;
                  within = ground arith;
                  free = used-word s i b (omega arith) ∙ bit_and-pow-zero _ b (==→≡ _ _ free);
                  below = λ g p q. absurd (omega arith);
                },
              )
        | inr taken ↦
            let next : Finds s (a + 1) (i * 32 + 32) (scan_bits s i left (b + 1)) =
              subst (λ k. Finds s k (i * 32 + 32) (scan_bits s i left (b + 1))) (omega arith)
                (scan_bits-Finds s i left (b + 1) v hi (omega arith)) in
            rw (here, taken)
              (Finds-step s (i * 32 + 32) a (scan_bits s i left (b + 1))
                (used-word s i b (omega arith) ∙ bit_and-pow-ne _ b (==→≢ _ _ taken)) next)
      ]
    ])

-- Joining the searches of two neighbouring ranges, the first without success.
Finds-join :
    (s : Pmm) (lo mid hi : ℕ) (r : Option ℕ)
    → lo ≤ mid
    → AllUsed s lo mid
    → Finds s mid hi r
    → Finds s lo hi r
Finds-join s lo mid hi none le first later = λ g p q h. elim (Bool-cases (ltb g mid)) [
  | inl e ↦ first g p (ltb→lt _ _ e) h
  | inr e ↦ later g (ltb→le _ _ e) q h
]
Finds-join s lo mid hi (some f) le first (q, later) = (
  q,
  record {
    from = omega (arith, later.from);
    within = later.within;
    free = later.free;
    below = λ g p h. elim (Bool-cases (ltb g mid)) [
      | inl e ↦ first g p (ltb→lt _ _ e) (omega (arith, later.within))
      | inr e ↦ later.below g (ltb→le _ _ e) h
    ];
  },
)

Finds-widen :
    (s : Pmm) (lo mid hi f : ℕ) → mid ≤ hi → Finds s lo mid (some f) → Finds s lo hi (some f)
Finds-widen s lo mid hi f le (q, first) = (omega arith, first)

full_word_table : all_below 32 (λ b. bit 0xFFFF_FFFF b == 1) ≡ true
unfolding all_below
full_word_table = refl

full_word : (s : Pmm) (i : ℕ) → word s i ≡ 0xFFFF_FFFF → AllUsed s (i * 32) ((i + 1) * 32)
full_word s i full g p q h =
    let b = g - i * 32 in
    let lt : b < 32 = omega arith in
    let e : i * 32 + b ≡ g = omega arith in
    subst (λ k. used s k ≡ 1) e
      (used-word s i b lt ∙ rw full (==→≡ _ _ (all_below_sound 32 _ b full_word_table lt)))

scan_words-Finds :
    (s : Pmm) (left i : ℕ)
    → IsValid s
    → i + left ≤ 2 ^ 15
    → Finds s (i * 32) ((i + left) * 32) (scan_words s left i)
unfolding scan_words
scan_words-Finds s zero i v h = λ g p q r. absurd (omega arith)
scan_words-Finds s (suc left) i v h =
    let rest = scan_words s left (i + 1) in
    let hi = (i + suc left) * 32 in
    let next : Finds s ((i + 1) * 32) hi rest =
      subst (λ k. Finds s ((i + 1) * 32) k rest) (omega arith)
        (scan_words-Finds s left (i + 1) v (omega arith)) in
    let bits : Finds s (i * 32) ((i + 1) * 32) (scan_bits s i 32 0) =
      subst₂ (λ j k. Finds s j k (scan_bits s i 32 0)) (omega arith) (omega arith)
        (scan_bits-Finds s i 32 0 v (omega arith) refl) in
    elim (Bool-cases (word s i == 0xFFFF_FFFF)) [
      | inl full ↦ rw full (
          Finds-join s (i * 32) ((i + 1) * 32) hi rest (omega arith) (full_word s i (==→≡ _ _ full))
            next)
      | inr room ↦ elim (Option-cases (scan_bits s i 32 0)) [
        | inl e ↦
            rw (room, e)
              (Finds-join s (i * 32) ((i + 1) * 32) hi rest (omega arith) (rw e at bits) next)
        | inr (f, e) ↦
            rw (room, e) (Finds-widen s (i * 32) ((i + 1) * 32) hi f (omega arith) (rw e at bits))
      ]
    ]

-- What `pmm_alloc_frame` does: the address of the lowest free frame, which it marks and nothing
-- else, or 0 when every frame is in use.
pub data Allocates (s : Pmm) (r : ℕ × Pmm) : Type 0 where
  taken : (f : ℕ) → IsFirstFree s 0 f → r ≡ (f * 4096, frame_mark_used f s) → Allocates s r
  full : AllUsed s 0 s.total_frames → r ≡ (0, s) → Allocates s r

-- On a valid state `pmm_alloc_frame` either returns the address of the lowest free frame and marks
-- that frame only, or, when every frame is used, returns 0 and leaves the state alone.
pub pmm_alloc_frame-Allocates : (s : Pmm) → IsValid s → Allocates s (pmm_alloc_frame s)
unfolding pmm_alloc_frame
pmm_alloc_frame-Allocates s v = elim (Bool-cases (s.total_frames == 0)) [
  | inl none_at_all ↦ full (λ g p q h. absurd (ground arith)) (rw none_at_all)
  | inr some_frames ↦
      let n = (s.total_frames + 31) / 32 in
      let found : Finds s 0 (n * 32) (scan_words s n 0) =
        subst (λ k. Finds s 0 k (scan_words s n 0)) (omega arith)
          (scan_words-Finds s n 0 v (omega (arith, v.bounded))) in
      elim (Option-cases (scan_words s n 0)) [
        | inl e ↦ full (λ g p q h. (rw e at found) g p (omega arith) h) (rw (some_frames, e))
        | inr (f, e) ↦
            let (lt, first) = let r : Finds s 0 (n * 32) (some f) = rw e at found in r in
            let small : f * 2 ^ 12 % 2 ^ 32 ≡ f * 4096 = omega (arith, first.within, v.bounded) in
            taken f first (rw (some_frames, e, small))
      ]
]
