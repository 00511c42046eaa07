-- ===== src/Sched/Switch.antt =====
-- sched/switch.asm: the registers of a task wait on its stack, and come back.
use pumpkin_os.Prelude.{
  ℕ, update, ◌+◌, ◌-◌, ◌%◌, ◌<◌, ◌≤◌, ◌^◌, ◌≡◌, ◌⊎◌, inl, inr, refl, sym, ap, subst, ◌∙◌, ◌≢◌, ≢→==,
  arith, false, ◌==◌,
}
use pumpkin_os.Sched.{
  Task, Cpu, Sched, Alloc, stack_size, craft, switch_out, switch_in, context_switch, task_spawn,
}

-- The six words from `sp` up hold these registers, which were those of a caller at `sp + 24`.
pub record Holds (w : ℕ → ℕ) (sp : ℕ) (c : Cpu) : Type 0 where
  pub at_flags : w sp ≡ c.eflags
  pub at_edi : w (sp + 4) ≡ c.edi
  pub at_esi : w (sp + 8) ≡ c.esi
  pub at_ebx : w (sp + 12) ≡ c.ebx
  pub at_ebp : w (sp + 16) ≡ c.ebp
  pub at_eip : w (sp + 20) ≡ c.eip
  pub at_esp : sp + 24 ≡ c.esp
  pub in_range : sp + 24 < 2 ^ 32

-- What six pushes leave, of which the first is the return address.
abbrev frame : ℕ → Cpu → (ℕ → ℕ) → ℕ → ℕ
frame sp c w = update sp c.eflags (
    update (sp + 4) c.edi (
      update (sp + 8) c.esi
        (update (sp + 12) c.ebx (update (sp + 16) c.ebp (update (sp + 20) c.eip w)))))

frame-Holds :
    (sp : ℕ) (c : Cpu) (w : ℕ → ℕ) → sp + 24 ≡ c.esp → c.esp < 2 ^ 32 → Holds (frame sp c w) sp c
frame-Holds sp c w e hi = record {
  at_flags = ground arith;
  at_edi = ground arith;
  at_esi = ground arith;
  at_ebx = ground arith;
  at_ebp = ground arith;
  at_eip = ground arith;
  at_esp = e;
  in_range = omega arith;
}

-- The registers with which a new task starts: at `task_bootstrap`, on an empty stack, with
-- interrupts on.
abbrev pub first_cpu : ℕ → ℕ → Cpu
first_cpu bootstrap top = record {
  esp = top;
  ebp = 0;
  ebx = 0;
  esi = 0;
  edi = 0;
  eflags = 0x202;
  eip = bootstrap;
}

module _ {H : Type 0} where
  switch_in-Holds : (sp : ℕ) (c : Cpu) (s : Sched H) → Holds s.words sp c → (switch_in sp s).cpu ≡ c
  unfolding switch_in
  switch_in-Holds sp c s h =
      let low : (k : ℕ) → k ≤ 24 → (sp + k) % 2 ^ 32 ≡ sp + k =
        λ k le. omega (arith, h.in_range, le) in
      let low0 : (sp + 0) % 2 ^ 32 ≡ sp = omega (arith, h.in_range) in
      rw
        (
          low0,
          low 4 (omega arith),
          low 8 (omega arith),
          low 12 (omega arith),
          low 16 (omega arith),
          low 20 (omega arith),
          low 24 (omega arith),
          h.at_flags,
          h.at_edi,
          h.at_esi,
          h.at_ebx,
          h.at_ebp,
          h.at_eip,
          h.at_esp,
        )
        refl

  switch_out-frame :
      (old sp : ℕ) (s : Sched H)
      → sp + 24 ≡ s.cpu.esp
      → s.cpu.esp < 2 ^ 32
      → ((switch_out old s).words ≡ frame sp s.cpu s.words) × ((switch_out old s).cpu.esp ≡ sp)
  unfolding switch_out
  switch_out-frame old sp s e hi =
      let d20 : (s.cpu.esp + 2 ^ 32 - 4) % 2 ^ 32 ≡ sp + 20 = omega arith in
      let d16 : (sp + 20 + 2 ^ 32 - 4) % 2 ^ 32 ≡ sp + 16 = omega arith in
      let d12 : (sp + 16 + 2 ^ 32 - 4) % 2 ^ 32 ≡ sp + 12 = omega arith in
      let d8 : (sp + 12 + 2 ^ 32 - 4) % 2 ^ 32 ≡ sp + 8 = omega arith in
      let d4 : (sp + 8 + 2 ^ 32 - 4) % 2 ^ 32 ≡ sp + 4 = omega arith in
      let d0 : (sp + 4 + 2 ^ 32 - 4) % 2 ^ 32 ≡ sp = omega arith in
      rw (d20, d16, d12, d8, d4, d0) (refl, refl)

-- Two stretches of 24 bytes that do not overlap.
abbrev pub Disjoint : ℕ → ℕ → Type 0
Disjoint a b = (a + 24 ≤ b) ⊎ (b + 24 ≤ a)

-- Both memories hold the same words in the frame at `sp`.
pub record Same (v w : ℕ → ℕ) (sp : ℕ) : Type 0 where
  pub same : (k : ℕ) → k < 24 → v (sp + k) ≡ w (sp + k)

Holds-Same : (v w : ℕ → ℕ) (sp : ℕ) (c : Cpu) → Same v w sp → Holds w sp c → Holds v sp c
Holds-Same v w sp c e h =
    let zero_up : v sp ≡ w sp = rw (sym (plus_zero sp)) (e.same 0 (omega arith)) in
    record {
      at_flags = zero_up ∙ h.at_flags;
      at_edi = e.same 4 (omega arith) ∙ h.at_edi;
      at_esi = e.same 8 (omega arith) ∙ h.at_esi;
      at_ebx = e.same 12 (omega arith) ∙ h.at_ebx;
      at_ebp = e.same 16 (omega arith) ∙ h.at_ebp;
      at_eip = e.same 20 (omega arith) ∙ h.at_eip;
      at_esp = h.at_esp;
      in_range = h.in_range;
    }
  where
    plus_zero : (n : ℕ) → n + 0 ≡ n
    plus_zero n = omega arith

frame-Same : (sq sp : ℕ) (c : Cpu) (w : ℕ → ℕ) → Disjoint sp sq → Same (frame sq c w) w sp
frame-Same sq sp c w d = record {
  same = λ k h.
      let m0 : ((sp + k) == sq) ≡ false =
        ≢→== (sp + k) sq (λ e. apart k 0 h (omega arith) d (omega arith)) in
      let m4 : ((sp + k) == (sq + 4)) ≡ false =
        ≢→== (sp + k) (sq + 4) (λ e. apart k 4 h (omega arith) d (omega arith)) in
      let m8 : ((sp + k) == (sq + 8)) ≡ false =
        ≢→== (sp + k) (sq + 8) (λ e. apart k 8 h (omega arith) d (omega arith)) in
      let m12 : ((sp + k) == (sq + 12)) ≡ false =
        ≢→== (sp + k) (sq + 12) (λ e. apart k 12 h (omega arith) d (omega arith)) in
      let m16 : ((sp + k) == (sq + 16)) ≡ false =
        ≢→== (sp + k) (sq + 16) (λ e. apart k 16 h (omega arith) d (omega arith)) in
      let m20 : ((sp + k) == (sq + 20)) ≡ false =
        ≢→== (sp + k) (sq + 20) (λ e. apart k 20 h (omega arith) d (omega arith)) in
      rw (m0, m4, m8, m12, m16, m20) refl;
}
  where
    apart : (k j : ℕ) → k < 24 → j < 24 → Disjoint sp sq → sp + k ≢ sq + j
    apart k j h g (inl e) = λ x. omega arith
    apart k j h g (inr e) = λ x. omega arith

module _ {H : Type 0} where
  -- The task `a` waits with these registers, in a frame at `sp`.
  pub record Waits (s : Sched H) (a sp : ℕ) (c : Cpu) : Type 0 where
    pub pointer : (s.tasks a).esp ≡ sp
    pub saved : Holds s.words sp c

  -- A switch to a task that waits gives it its registers, where the frame of the task that is
  -- switched out does not overlap.
  pub context_switch-Waits :
      (b a sp sq : ℕ) (c : Cpu) (t : Sched H)
      → Waits t a sp c
      → sq + 24 ≡ t.cpu.esp
      → t.cpu.esp < 2 ^ 32
      → Disjoint sp sq
      → (context_switch b (t.tasks a).esp t).cpu ≡ c
  unfolding context_switch
  context_switch-Waits b a sp sq c t w e hi d =
      let out = switch_out-frame b sq t e hi in
      let same : Same (switch_out b t).words t.words sp =
        subst (λ (v : ℕ → ℕ). Same v t.words sp) (sym out.0) (frame-Same sq sp t.cpu t.words d) in
      rw w.pointer (
        switch_in-Holds sp c (switch_out b t)
          (Holds-Same (switch_out b t).words t.words sp c same w.saved))

  switch_out-esp :
      (old : ℕ) (s : Sched H) → ((switch_out old s).tasks old).esp ≡ (switch_out old s).cpu.esp
  unfolding switch_out
  switch_out-esp old s = ground arith

  switch_in-words :
      (n : ℕ) (s : Sched H) → ((switch_in n s).words ≡ s.words) × ((switch_in n s).tasks ≡ s.tasks)
  unfolding switch_in
  switch_in-words n s = (refl, refl)

  -- A task that is switched out waits with the registers that it had.
  switched-Waits :
      (a n sp : ℕ) (s : Sched H)
      → sp + 24 ≡ s.cpu.esp
      → s.cpu.esp < 2 ^ 32
      → Waits (context_switch a n s) a sp s.cpu
  unfolding context_switch
  switched-Waits a n sp s e hi =
      let out = switch_out-frame a sp s e hi in
      let back = switch_in-words n (switch_out a s) in
      record {
        pointer = ap (λ (f : ℕ → Task). (f a).esp) back.1 ∙ switch_out-esp a s ∙ out.1;
        saved =
            subst (λ (v : ℕ → ℕ). Holds v sp s.cpu) (sym (back.0 ∙ out.0))
              (frame-Holds sp s.cpu s.words e hi);
      }

  -- The task `a` is switched out with 24 bytes of stack below `esp`. Later, in a state in which its
  -- saved `esp` and those 24 bytes are what they were, a switch from `b`, whose own frame does not
  -- overlap them, gives `a` every register back: `esp`, the flags, and the place to go on at.
  pub context_switch-resumes :
      (a b n sp sq : ℕ) (s t : Sched H)
      → sp + 24 ≡ s.cpu.esp
      → s.cpu.esp < 2 ^ 32
      → sq + 24 ≡ t.cpu.esp
      → t.cpu.esp < 2 ^ 32
      → Disjoint sp sq
      → (t.tasks a).esp ≡ ((context_switch a n s).tasks a).esp
      → Same t.words (context_switch a n s).words sp
      → (context_switch b (t.tasks a).esp t).cpu ≡ s.cpu
  context_switch-resumes a b n sp sq s t e hi e' hi' d p w =
      let gone = switched-Waits a n sp s e hi in
      context_switch-Waits b a sp sq s.cpu t
        (record {
          pointer = p ∙ gone.pointer;
          saved = Holds-Same t.words (context_switch a n s).words sp s.cpu w gone.saved;
        })
        e' hi' d

  -- The first pointer that `kmalloc` returns to `task_spawn`, and the second.
  abbrev pub new_pointer : Alloc H → Sched H → ℕ
  new_pointer al s = (al.kmalloc 40 s.heap).0

  abbrev pub new_stack : Alloc H → Sched H → ℕ
  new_stack al s = (al.kmalloc stack_size (al.kmalloc 40 s.heap).1).0

  craft-Holds :
      (al : Alloc H) (bootstrap sp top : ℕ) (w : ℕ → ℕ)
      → sp + 24 ≡ top
      → top < 2 ^ 32
      → Holds (craft al bootstrap top w) sp (first_cpu bootstrap top)
  craft-Holds al bootstrap sp top w e hi =
      let t24 : top - 24 ≡ sp = omega arith in
      let t20 : top - 20 ≡ sp + 4 = omega arith in
      let t16 : top - 16 ≡ sp + 8 = omega arith in
      let t12 : top - 12 ≡ sp + 12 = omega arith in
      let t8 : top - 8 ≡ sp + 16 = omega arith in
      let t4 : top - 4 ≡ sp + 20 = omega arith in
      rw (t24, t20, t16, t12, t8, t4) (frame-Holds sp (first_cpu bootstrap top) w e hi)

  spawned-pointer :
      (al : Alloc H) (bootstrap entry arg name : ℕ) (s : Sched H)
      → ((task_spawn al bootstrap entry arg name s).1.tasks (new_pointer al s)).esp
        ≡ new_stack al s + stack_size - 24
  unfolding task_spawn
  spawned-pointer al bootstrap entry arg name s = ground arith

  spawned-words :
      (al : Alloc H) (bootstrap entry arg name : ℕ) (s : Sched H)
      → ((task_spawn al bootstrap entry arg name s).1.words
          ≡ craft al bootstrap (new_stack al s + stack_size) s.words)
        × ((task_spawn al bootstrap entry arg name s).1.cpu ≡ s.cpu)
  unfolding task_spawn
  spawned-words al bootstrap entry arg name s = (refl, refl)

  -- Where the stack that `kmalloc` returns to `task_spawn` ends below 4 GiB, the first switch to
  -- the new task, from a task whose own frame does not overlap the crafted one, starts it at
  -- `task_bootstrap`: its stack is empty again, the other registers are 0, and interrupts are on.
  task_spawn-starts :
      (al : Alloc H) (bootstrap entry arg name b sq : ℕ) (s : Sched H)
      → new_stack al s + stack_size < 2 ^ 32
      → sq + 24 ≡ s.cpu.esp
      → s.cpu.esp < 2 ^ 32
      → Disjoint (new_stack al s + stack_size - 24) sq
      → (context_switch b
          ((task_spawn al bootstrap entry arg name s).1.tasks (new_pointer al s)).esp
          (task_spawn al bootstrap entry arg name s).1).cpu
        ≡ first_cpu bootstrap (new_stack al s + stack_size)
  task_spawn-starts al bootstrap entry arg name b sq s top e hi d =
      let r = (task_spawn al bootstrap entry arg name s).1 in
      let t = new_pointer al s in
      let end = new_stack al s + stack_size in
      let w = spawned-words al bootstrap entry arg name s in
      context_switch-Waits b t (end - 24) sq (first_cpu bootstrap end) r
        (record {
          pointer = spawned-pointer al bootstrap entry arg name s;
          saved =
              subst (λ (v : ℕ → ℕ). Holds v (end - 24) (first_cpu bootstrap end)) (sym w.0)
                (craft-Holds al bootstrap (end - 24) end s.words (omega arith) top);
        })
        (e ∙ ap (λ (c : Cpu). c.esp) (sym w.1)) (subst (λ (c : Cpu). c.esp < 2 ^ 32) (sym w.1) hi) d
