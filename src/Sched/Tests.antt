-- ===== src/Sched/Tests.antt =====
-- The theorems about sched/ at concrete inputs: a boot task that spawns two more.
use pumpkin_os.Prelude.{ℕ, ◌+◌, ◌≡◌, inr, refl, arith, [], ◌∷◌}
use pumpkin_os.Sched.{Task, Cpu, Sched, Alloc, sched_init, task_spawn, context_switch}
use pumpkin_os.Sched.Ring.{IsRing, sched_init-IsRing, task_spawn-IsRing}
use pumpkin_os.Sched.Switch.{context_switch-resumes, new_pointer}

-- An allocator that never reuses memory.
abbrev bump : Alloc ℕ
bump = record { kmalloc = λ n h. (h, h + n + 16) }

abbrev no_task : Task
no_task = record {
  esp = 0;
  id = 0;
  name = 0;
  state = 0;
  entry = 0;
  arg = 0;
  stack = 0;
  kstack_top = 0;
  counter = 0;
  next = 0;
}

abbrev boot_cpu : Cpu
boot_cpu = record {
  esp = 0x8FF00;
  ebp = 1;
  ebx = 2;
  esi = 3;
  edi = 4;
  eflags = 0x202;
  eip = 0x1234;
}

abbrev boot : Sched ℕ
boot = record {
  tasks = λ p. no_task;
  current = 0;
  next_id = 0;
  ntasks = 0;
  words = λ p. 0;
  esp0 = 0x90000;
  cpu = boot_cpu;
  heap = 0xC000_0010;
}

abbrev one : Sched ℕ
one = sched_init bump 77 boot

one-IsRing : IsRing one []
one-IsRing = sched_init-IsRing bump 77 boot (λ e. omega arith)

abbrev two : Sched ℕ
two = (task_spawn bump 500 600 0 700 one).1

two-IsRing : IsRing two (new_pointer bump one ∷ [])
unfolding sched_init
two-IsRing = task_spawn-IsRing bump 500 600 0 700 one [] one-IsRing refl (omega arith)

abbrev three : Sched ℕ
three = (task_spawn bump 500 600 1 701 two).1

task_spawn-IsRing_example : IsRing three (new_pointer bump two ∷ new_pointer bump one ∷ [])
unfolding sched_init task_spawn
task_spawn-IsRing_example =
    task_spawn-IsRing bump 500 600 1 701 two (new_pointer bump one ∷ []) two-IsRing refl
      (omega arith)

-- Another task runs, with its stack elsewhere.
abbrev elsewhere : Sched ℕ
elsewhere =
    let s = context_switch 1 0x7000 boot in record s { cpu = record boot_cpu { esp = 0x7018 } }

context_switch-resumes_example : (context_switch 2 (elsewhere.tasks 1).esp elsewhere).cpu ≡ boot_cpu
context_switch-resumes_example =
    context_switch-resumes 1 2 0x7000 0x8FEE8 0x7000 boot elsewhere refl (omega arith) refl
      (omega arith) (inr (omega arith)) refl (record { same = λ k h. refl })
