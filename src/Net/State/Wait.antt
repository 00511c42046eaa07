-- ===== src/Net/State/Wait.antt =====
-- The wait loops of net/: when they end, and that fuel does not matter where the time runs out.
use pumpkin_os.Prelude.{ℕ, zero, suc, ◌<◌, ◌≡◌, refl, ap, ◌∙◌, arith, Bool, true, false}
use pumpkin_os.Prelude.{Option, none, some, if◌then◌else◌}
use pumpkin_os.Net.State.{Nic, Net, ticks, after_round, wait_loop}

module _ {S A : Type 0} (nic : Nic S) (more : ℕ → Bool) (body : Net S → Option A × Net S) where
  -- Every round that goes on leaves fewer rounds.
  abbrev pub RunsOut : (Net S → ℕ) → Type 0
  RunsOut left =
      (s : Net S)
      → more (ticks nic s).0 ≡ true
      → (body (ticks nic s).1).0 ≡ none
      → left (body (ticks nic s).1).1 < left s

  same_round :
      (b : Bool) (r : Option A × Net S) (s : Net S) (x y : Option A × Net S)
      → (b ≡ true → r.0 ≡ none → x ≡ y)
      → (if b then after_round r x else (none, s)) ≡ (if b then after_round r y else (none, s))
  same_round false r s x y h = refl
  same_round true (some a, u) s x y h = refl
  same_round true (none, u) s x y h = h refl refl

  -- Where every round that goes on leaves fewer rounds, a wait loop gives the same result for all
  -- fuel above the number of rounds left: it ends because of an answer or of the time.
  pub wait_loop-enough :
      (left : Net S → ℕ)
      → RunsOut left
      → (n k : ℕ) (s : Net S) → left s < n
      → left s < k
      → wait_loop nic more body n s ≡ wait_loop nic more body k s
  unfolding wait_loop
  wait_loop-enough left h zero k s p q = absurd (omega arith)
  wait_loop-enough left h (suc n) zero s p q = absurd (omega arith)
  wait_loop-enough left h (suc n) (suc k) s p q =
      let s1 = (ticks nic s).1 in
      same_round (more (ticks nic s).0) (body s1) s1 _ _ (λ e f.
        wait_loop-enough left h n k (body s1).1 (omega (arith, h s e f)) (omega (arith, h s e f)))

  ends :
      (b : Bool) (r : Option A × Net S) (s t : Net S) (x : Option A × Net S) (a : A)
      → ((x ≡ (some a, t)) → (u : Net S) × (body u ≡ (some a, t)))
      → (u : Net S) → body u ≡ r
      → (if b then after_round r x else (none, s)) ≡ (some a, t)
      → (u : Net S) × (body u ≡ (some a, t))
  ends false r s t x a h u e q = absurd (cc (ap (λ p. p.0) q))
  ends true (some a', v) s t x a h u e q = (u, e ∙ q)
  ends true (none, v) s t x a h u e q = h q

  -- An answer of a wait loop is the answer of one of its rounds, with the state after that round.
  pub wait_loop-answers :
      (n : ℕ) (s t : Net S) (a : A)
      → wait_loop nic more body n s ≡ (some a, t)
      → (u : Net S) × (body u ≡ (some a, t))
  unfolding wait_loop
  wait_loop-answers zero s t a e = absurd (cc (ap (λ p. p.0) e))
  wait_loop-answers (suc n) s t a e =
      let s1 = (ticks nic s).1 in
      ends (more (ticks nic s).0) (body s1) s1 t (wait_loop nic more body n (body s1).1) a
        (wait_loop-answers n (body s1).1 t a) s1 refl e
