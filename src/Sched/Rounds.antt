-- ===== src/Sched/Rounds.antt =====
-- Round robin: what sched_tick and task_yield of sched/sched.c do to the run queue.
use pumpkin_os.Prelude.{
  ℕ, zero, suc, ◌≡◌, refl, arith, ==_refl, false, ◌==◌, List, [], ◌∷◌, ◌++◌, length-append,
}
use pumpkin_os.Sched.{
  Task, Sched, cli, next_of, pick_from, pick_next, switch_out, switch_in, context_switch, switch_to,
  sched_tick, task_yield,
}
use pumpkin_os.Sched.Ring.{
  IsRing, Links-snoc, Links-agree, all_alive, all_alive-agree, has, distinct,
}

has-snoc : (p : ℕ) (l : List ℕ) (c : ℕ) → has p (l ++ c ∷ []) ≡ has p (c ∷ l)
has-snoc p [] c = refl
has-snoc p (x ∷ l) c = ground (arith, has-snoc p l c)

distinct-snoc : (l : List ℕ) (c : ℕ) → distinct (l ++ c ∷ []) ≡ distinct (c ∷ l)
distinct-snoc [] c = refl
distinct-snoc (x ∷ l) c = ground (arith, distinct-snoc l c, has-snoc x l c)

all_alive-snoc :
    (f : ℕ → Task) (l : List ℕ) (c : ℕ) → all_alive f (l ++ c ∷ []) ≡ all_alive f (c ∷ l)
all_alive-snoc f [] c = refl
all_alive-snoc f (x ∷ l) c = ground (arith, all_alive-snoc f l c)

module _ {H : Type 0} where
  switch_to-next : (n p : ℕ) (s : Sched H) → next_of (switch_to n s).tasks p ≡ next_of s.tasks p
  unfolding switch_to context_switch switch_out switch_in
  switch_to-next n p s = ground arith

  switch_to-state : (n p : ℕ) (s : Sched H) → ((switch_to n s).tasks p).state ≡ (s.tasks p).state
  unfolding switch_to context_switch switch_out switch_in
  switch_to-state n p s = ground arith

  pick_from-alive : (n t : ℕ) (s : Sched H) → (s.tasks t).state ≡ 0 → pick_from n t s ≡ t
  unfolding pick_from
  pick_from-alive zero t s h = refl
  pick_from-alive (suc n) t s h = ground (arith, h)

  pick_next-ring : (s : Sched H) (x : ℕ) (l : List ℕ) → IsRing s (x ∷ l) → pick_next s ≡ x
  unfolding pick_next
  pick_next-ring s x l v = rw v.links.0 (pick_from-alive s.ntasks x s (ground (arith, v.alive)))

  pick_next-alone : (s : Sched H) → IsRing s [] → pick_next s ≡ s.current
  unfolding pick_next
  pick_next-alone s v = rw v.links (pick_from-alive s.ntasks s.current s (ground (arith, v.alive)))

  switch_to-IsRing :
      (s : Sched H) (x : ℕ) (l : List ℕ)
      → IsRing s (x ∷ l)
      → IsRing (switch_to x s) (l ++ s.current ∷ [])
  unfolding switch_to context_switch switch_out switch_in
  switch_to-IsRing s x l v =
      let f = s.tasks in
      let g = (switch_to x s).tasks in
      let all = l ++ s.current ∷ [] in
      record {
        links =
            Links-agree f g x x all x (Links-snoc f x l s.current x v.links.1 v.links.0)
              (switch_to-next x x s) (λ p m. switch_to-next x p s);
        apart = ground (arith, v.apart, distinct-snoc l s.current, has-snoc x l s.current);
        alive =
            all_alive-agree f g (x ∷ all) (ground (arith, v.alive, all_alive-snoc f l s.current))
              (λ p m. switch_to-state x p s);
        not_null = ground (arith, v.not_null, has-snoc 0 l s.current);
        counted = omega (arith, v.counted, length-append l (s.current ∷ []));
        bounded = omega (arith, v.bounded, length-append l (s.current ∷ []));
      }

  abbrev pub ticks : ℕ → Sched H → Sched H
  ticks zero s = s
  ticks (suc n) s = ticks n (sched_tick s)

  switch_to-current : (x : ℕ) (s : Sched H) → (switch_to x s).current ≡ x
  unfolding switch_to context_switch switch_out switch_in
  switch_to-current x s = refl

  -- The state in which `task_yield` switches.
  abbrev pub masked : Sched H → Sched H
  masked s = record s { cpu = record s.cpu { eflags = cli s.cpu.eflags } }

  task_yield-ring :
      (s : Sched H) (x : ℕ) (l : List ℕ) → IsRing s (x ∷ l) → task_yield s ≡ switch_to x (masked s)
  unfolding task_yield
  task_yield-ring s x l v =
      let other : (x == s.current) ≡ false = ground (arith, v.apart) in
      rw (pick_next-ring s x l v, other) refl

  masked-IsRing : (s : Sched H) (others : List ℕ) → IsRing s others → IsRing (masked s) others
  masked-IsRing s others v = record {
    links = v.links;
    apart = v.apart;
    alive = v.alive;
    not_null = v.not_null;
    counted = v.counted;
    bounded = v.bounded;
  }

  task_yield-alone : (s : Sched H) → IsRing s [] → task_yield s ≡ s
  unfolding task_yield
  task_yield-alone s v = rw (pick_next-alone s v, ==_refl s.current) refl

  -- What `task_yield` does to a queue: the first of the others runs, and the task itself goes to
  -- the end; with no others, nothing changes.
  abbrev pub Yields : Sched H → List ℕ → Type 0
  Yields s [] = task_yield s ≡ s
  Yields s (x ∷ l) = ((task_yield s).current ≡ x) × IsRing (task_yield s) (l ++ s.current ∷ [])

  -- A task that yields waits for every other task of the queue to have its turn: the first of them
  -- runs, and the task stands at the end; with no others, nothing changes.
  task_yield-Yields : (s : Sched H) (others : List ℕ) → IsRing s others → Yields s others
  task_yield-Yields s [] v = task_yield-alone s v
  task_yield-Yields s (x ∷ l) v =
      rw (task_yield-ring s x l v) (
        switch_to-current x (masked s),
        switch_to-IsRing (masked s) x l (masked-IsRing s (x ∷ l) v),
      )
