-- ===== src/Sched.antt =====
-- sched/sched.c and sched/switch.asm: kernel threads on a circular list, and the switch between
-- them. Task structures lie in a store, keyed by their pointers; 0 is the null pointer.
pub mod Ring
pub mod Rounds
pub mod Exit
pub mod Switch
mod Tests
use package.pumpkin_os.Prelude.{
  ℕ, zero, suc, ◌+◌, ◌-◌, ◌%◌, ◌^◌, bit_and, Bool, not, ◌&&◌, ◌==◌, if◌then◌else◌, update,
}

abbrev pub stack_size : ℕ
stack_size = 8192

abbrev pub boot_stack : ℕ
boot_stack = 0x90000

pub record Task : Type 0 where
  pub esp : ℕ
  pub id : ℕ
  pub name : ℕ
  pub state : ℕ
  pub entry : ℕ
  pub arg : ℕ
  pub stack : ℕ
  pub kstack_top : ℕ
  pub counter : ℕ
  pub next : ℕ

-- The registers that `context_switch` handles.
pub record Cpu : Type 0 where
  pub esp : ℕ
  pub ebp : ℕ
  pub ebx : ℕ
  pub esi : ℕ
  pub edi : ℕ
  pub eflags : ℕ
  pub eip : ℕ

-- `kmalloc` of mm/kheap.c on its state.
pub record Alloc (H : Type 0) : Type 0 where
  pub kmalloc : ℕ → H → ℕ × H

-- The static variables, with the words of the stacks, the field esp0 of the TSS and the CPU.
pub record Sched (H : Type 0) : Type 0 where
  pub tasks : ℕ → Task
  pub current : ℕ
  pub next_id : ℕ
  pub ntasks : ℕ
  pub words : ℕ → ℕ
  pub esp0 : ℕ
  pub cpu : Cpu
  pub heap : H

-- `next` of the structure at a pointer.
abbrev pub next_of : (ℕ → Task) → ℕ → ℕ
next_of f p = (f p).next

-- `cli` on the flags.
abbrev pub cli : ℕ → ℕ
cli flags = bit_and flags 0xFFFF_FDFF

module _ {H : Type 0} where
  -- A `push` of the assembly.
  abbrev pub push : ℕ → Sched H → Sched H
  push v s =
      let sp = (s.cpu.esp + 2 ^ 32 - 4) % 2 ^ 32 in
      record s { words = update sp v s.words; cpu = record s.cpu { esp = sp } }

  abbrev pub word_up : ℕ → Sched H → ℕ
  word_up k s = s.words ((s.cpu.esp + k) % 2 ^ 32)

  -- The first half: the registers of the task `old` on its stack, below the return address that
  -- the call has pushed, and `*old_esp = esp`.
  pub switch_out : ℕ → Sched H → Sched H
  switch_out old s =
      let c = s.cpu in
      let t = push c.eflags (push c.edi (push c.esi (push c.ebx (push c.ebp (push c.eip s))))) in
      record t { tasks = update old (record (t.tasks old) { esp = t.cpu.esp }) t.tasks }

  -- The second half: `esp = new_esp`, the pops and `ret`.
  pub switch_in : ℕ → Sched H → Sched H
  switch_in new_esp t =
      let s = record t { cpu = record t.cpu { esp = new_esp } } in
      record s {
        cpu = record {
          esp = (new_esp + 24) % 2 ^ 32;
          ebp = word_up 16 s;
          ebx = word_up 12 s;
          esi = word_up 8 s;
          edi = word_up 4 s;
          eflags = word_up 0 s;
          eip = word_up 20 s;
        };
      }

  -- `esp` at entry is that of the caller below the two arguments. These are the task whose `esp` the pointer `old_esp` points at, and `new_esp`, which
  -- the caller has read already.
  pub context_switch : ℕ → ℕ → Sched H → Sched H
  unfolding switch_out switch_in
  context_switch old new_esp s = switch_in new_esp (switch_out old s)

  -- The loop of `pick_next` at `t`, for at most `n` steps.
  pub pick_from : ℕ → ℕ → Sched H → ℕ
  pick_from zero t s = t
  pick_from (suc n) t s =
      let on = pick_from n (next_of s.tasks t) s in
      if (s.tasks t).state == 0 then t else if t == s.current then t else on

  pub pick_next : Sched H → ℕ
  unfolding pick_from
  pick_next s = pick_from s.ntasks (next_of s.tasks s.current) s

  pub switch_to : ℕ → Sched H → Sched H
  unfolding context_switch
  switch_to next s =
      context_switch s.current (s.tasks next).esp
        (record s { current = next; esp0 = (s.tasks next).kstack_top })

  pub sched_tick : Sched H → Sched H
  unfolding pick_next switch_to
  sched_tick s =
      let next = pick_next s in
      if s.current == 0 then s else if next == s.current then s else switch_to next s

  -- The flags come back (`irq_restore`) at once, or when the task runs again.
  pub task_yield : Sched H → Sched H
  unfolding pick_next switch_to
  task_yield s =
      let next = pick_next s in
      if next == s.current
      then s
      else switch_to next (record s { cpu = record s.cpu { eflags = cli s.cpu.eflags } })

  -- The loop of `task_exit`: the task before `current`, from `p` on, for at most `n` steps.
  pub before_from : ℕ → ℕ → Sched H → ℕ
  before_from zero p s = p
  before_from (suc n) p s =
      let on = before_from n (next_of s.tasks p) s in
      if next_of s.tasks p == s.current then p else on

  -- `task_exit` up to the switch: `current` is marked dead and taken out of the ring.
  pub unlink : Sched H → Sched H
  unfolding before_from
  unlink s =
      let c = s.current in
      let marked = update c (record (s.tasks c) { state = 1 }) s.tasks in
      let t = record s { tasks = marked; cpu = record s.cpu { eflags = cli s.cpu.eflags } } in
      let p = before_from t.ntasks c t in
      record t {
        tasks = update p (record (t.tasks p) { next = next_of t.tasks c }) t.tasks;
        ntasks = (t.ntasks + 2 ^ 32 - 1) % 2 ^ 32;
      }

  pub task_exit : Sched H → Sched H
  unfolding unlink context_switch
  task_exit s =
      let t = unlink s in
      let next = next_of t.tasks t.current in
      context_switch t.current (t.tasks next).esp
        (record t { current = next; esp0 = (t.tasks next).kstack_top })

  module _ (al : Alloc H) where
    -- `kmain` is the address of the name.
    pub sched_init : ℕ → Sched H → Sched H
    sched_init kmain s =
        let (t, heap) = al.kmalloc 40 s.heap in
        record s {
          heap = heap;
          tasks =
              update t
                (record {
                  esp = 0;
                  id = s.next_id;
                  name = kmain;
                  state = 0;
                  entry = 0;
                  arg = 0;
                  stack = 0;
                  kstack_top = boot_stack;
                  counter = 0;
                  next = t;
                })
                s.tasks;
          next_id = (s.next_id + 1) % 2 ^ 32;
          current = t;
          ntasks = 1;
        }

    -- The stack that `task_spawn` crafts for a task whose `stack + STACK_SIZE` is `top`;
    -- `bootstrap` is the address of `task_bootstrap`.
    abbrev pub craft : ℕ → ℕ → (ℕ → ℕ) → ℕ → ℕ
    craft bootstrap top w = update (top - 24) 0x202 (
        update (top - 20) 0 (
          update (top - 16) 0
            (update (top - 12) 0 (update (top - 8) 0 (update (top - 4) bootstrap w)))))

    -- The structure that `task_spawn` fills in.
    abbrev pub new_task : ℕ → ℕ → ℕ → ℕ → Sched H → Task
    new_task stack entry arg name s = record {
      esp = stack + stack_size - 24;
      id = s.next_id;
      name = name;
      state = 0;
      entry = entry;
      arg = arg;
      stack = stack;
      kstack_top = stack + stack_size;
      counter = 0;
      next = next_of s.tasks s.current;
    }

    -- The new task, and the state. The stack lies below 4 GiB, as the heap does.
    pub task_spawn : ℕ → ℕ → ℕ → ℕ → Sched H → ℕ × Sched H
    task_spawn bootstrap entry arg name s =
        let (t, heap) = al.kmalloc 40 s.heap in
        let (stack, heap') = al.kmalloc stack_size heap in
        let top = stack + stack_size in
        let new = new_task stack entry arg name s in
        let tasks = update t new s.tasks in
        (
          t,
          record s {
            heap = heap';
            words = craft bootstrap top s.words;
            next_id = (s.next_id + 1) % 2 ^ 32;
            tasks = update s.current (record (tasks s.current) { next = t }) tasks;
            ntasks = (s.ntasks + 1) % 2 ^ 32;
          },
        )
