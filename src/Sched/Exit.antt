-- ===== src/Sched/Exit.antt =====
-- task_exit of sched/sched.c: the task that ends leaves the run queue.
use pumpkin_os.Prelude.{ℕ, update, suc, List, [], ◌∷◌, length}
use pumpkin_os.Sched.{Task, Sched, cli, next_of, context_switch}

abbrev pub last : ℕ → List ℕ → ℕ
last a [] = a
last a (x ∷ l) = last x l

module _ {H : Type 0} where
  abbrev pub marked : Sched H → ℕ → Task
  marked s = update s.current (record (s.tasks s.current) { state = 1 }) s.tasks

  -- The state after `unlink` where `x` and `l` wait.
  abbrev pub unlinked : Sched H → ℕ → List ℕ → Sched H
  unlinked s x l = record s {
    tasks = update (last x l) (record (marked s (last x l)) { next = x }) (marked s);
    cpu = record s.cpu { eflags = cli s.cpu.eflags };
    ntasks = suc (length l);
  }

  -- What runs next, after `unlink`.
  abbrev pub handed : Sched H → ℕ → List ℕ → Sched H
  handed s x l = record (unlinked s x l) {
    current = x;
    esp0 = ((unlinked s x l).tasks x).kstack_top;
  }

  -- The end of `task_exit`.
  abbrev leave : Sched H → Sched H
  leave t =
      let next = next_of t.tasks t.current in
      context_switch t.current (t.tasks next).esp
        (record t { current = next; esp0 = (t.tasks next).kstack_top })
