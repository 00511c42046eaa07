-- ===== src/Syscall/Tests.antt =====
-- Runs of cpu/syscall.c.
use pumpkin_os.Prelude.{ℕ, ◌≡◌, refl, false, true, []}
use pumpkin_os.Syscall.{Registers, Machine, write_loop, syscall_dispatch}

abbrev machine : Machine
machine = record {
  console = record {
    cells = λ i. 0;
    cur_row = 0;
    cur_col = 0;
    cur_attr = 7;
    crtc_high = 0;
    crtc_low = 0;
    serial = [];
    setup = [];
  };
  exited = false;
}

abbrev call : ℕ → Registers
call number = record { eax = number; ebx = 65; ecx = 3; cs = 0x1B }

calls-run :
    ((syscall_dispatch (λ a. a) (call 0) machine).1.exited ≡ true)
    × ((syscall_dispatch (λ a. a) (call 2) machine).0.eax ≡ 3)
    × ((syscall_dispatch (λ a. a) (call 3) machine).0.eax ≡ 3)
    × ((syscall_dispatch (λ a. a) (call 9) machine).0.eax ≡ 0xFFFFFFFF)
unfolding syscall_dispatch write_loop
calls-run = (refl, refl, refl, refl)
