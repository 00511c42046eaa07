-- ===== src/Syscall.antt =====
-- cpu/syscall.c: the dispatch of a system call, on the console of drivers/console.c.
pub mod Calls
mod Tests
use package.pumpkin_os.Prelude.{
  ℕ, zero, suc, ◌+◌, ◌-◌, ◌%◌, ◌^◌, bit_and, ◌==◌, if◌then◌else◌, Bool, true, false,
}
use package.pumpkin_os.Console.{Console, console_putc}

abbrev pub sys_exit : ℕ
sys_exit = 0

abbrev pub sys_putc : ℕ
sys_putc = 1

abbrev pub sys_write : ℕ
sys_write = 2

abbrev pub sys_getcpl : ℕ
sys_getcpl = 3

-- The saved registers that the dispatcher reads or writes.
pub record Registers : Type 0 where
  pub eax : ℕ
  pub ebx : ℕ
  pub ecx : ℕ
  pub cs : ℕ

-- The console, and whether `task_exit` was called, which does not return.
pub record Machine : Type 0 where
  pub console : Console
  pub exited : Bool

-- The loop of SYS_WRITE over the bytes of memory from address `p` on.
pub write_loop : (ℕ → ℕ) → ℕ → ℕ → Console → Console
write_loop mem p zero s = s
write_loop mem p (suc n) s = write_loop mem ((p + 1) % 2 ^ 32) n (console_putc (mem p) s)

pub syscall_dispatch : (ℕ → ℕ) → Registers → Machine → Registers × Machine
syscall_dispatch mem r s =
    if r.eax == sys_exit
    then (r, record s { exited = true })
    else if r.eax == sys_putc
    then (record r { eax = 0 }, record s { console = console_putc (bit_and r.ebx 0xFF) s.console })
    else if r.eax == sys_write
    then (record r { eax = r.ecx }, record s { console = write_loop mem r.ebx r.ecx s.console })
    else if r.eax == sys_getcpl
    then (record r { eax = bit_and r.cs 3 }, s)
    else (record r { eax = 2 ^ 32 - 1 }, s)
