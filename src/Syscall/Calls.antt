-- ===== src/Syscall/Calls.antt =====
-- cpu/syscall.c: no system call brings the console's cursor off the screen or writes behind it.
use pumpkin_os.Prelude.{
  ℕ, zero, suc, ◌+◌, ◌%◌, ◌^◌, ◌≤◌, ◌<◌, ◌≡◌, refl, ◌∙◌, arith, bit_and, ◌==◌, if_cases,
}
use pumpkin_os.Prelude.Bits.{bit_and_mask}
use pumpkin_os.Console.{Console, console_putc}
use pumpkin_os.Console.Cursor.{OnScreen, KeepsBehind, console_putc-OnScreen}
use pumpkin_os.Syscall.{
  Registers, Machine, sys_exit, sys_putc, sys_write, sys_getcpl, write_loop, syscall_dispatch,
}

-- The console is safe, and the result fits in `eax`; the other registers are as before.
pub record IsSafe (r : Registers) (s : Machine) (r' : Registers) (s' : Machine) : Type 0 where
  pub on_screen : OnScreen s'.console
  pub keeps : KeepsBehind s.console s'.console
  pub word : r'.eax < 2 ^ 32
  pub others : (r'.ebx ≡ r.ebx) × (r'.ecx ≡ r.ecx) × (r'.cs ≡ r.cs)

write_loop-OnScreen :
    (mem : ℕ → ℕ) (p n : ℕ) (s : Console)
    → OnScreen s
    → OnScreen (write_loop mem p n s) × KeepsBehind s (write_loop mem p n s)
unfolding write_loop
write_loop-OnScreen mem p zero s on = (on, λ i h. refl)
write_loop-OnScreen mem p (suc n) s on =
    let (on', keep, _) = console_putc-OnScreen (mem p) s on in
    let (on'', keep') = write_loop-OnScreen mem ((p + 1) % 2 ^ 32) n (console_putc (mem p) s) on' in
    (on'', λ i h. keep' i h ∙ keep i h)

abbrev pub IsSafePair : Registers → Machine → Registers × Machine → Type 0
IsSafePair r s (r', s') = IsSafe r s r' s'

-- From a console whose cursor is on the screen, every system call with 32-bit registers, known or
-- not, leaves the cursor on the screen, writes no memory behind the screen, returns a 32-bit number
-- in `eax` and leaves the other registers.
pub syscall_dispatch-IsSafe :
    (mem : ℕ → ℕ) (r : Registers) (s : Machine)
    → OnScreen s.console
    → r.eax < 2 ^ 32
    → r.ecx < 2 ^ 32
    → IsSafePair r s (syscall_dispatch mem r s)
unfolding syscall_dispatch
syscall_dispatch-IsSafe mem r s on a c =
    let quiet : (i : ℕ) → 2000 ≤ i → s.console.cells i ≡ s.console.cells i = λ i h. refl in
    if_cases (IsSafePair r s) (r.eax == sys_exit) _ _
      (λ _. record { on_screen = on; keeps = quiet; word = a; others = (refl, refl, refl) })
      (λ _.
        if_cases (IsSafePair r s) (r.eax == sys_putc) _ _
          (λ _.
            let (on', keep, _) = console_putc-OnScreen (bit_and r.ebx 0xFF) s.console on in
            record {
              on_screen = on';
              keeps = keep;
              word = omega arith;
              others = (refl, refl, refl);
            })
          (λ _.
            if_cases (IsSafePair r s) (r.eax == sys_write) _ _
              (λ _.
                let (on', keep) = write_loop-OnScreen mem r.ebx r.ecx s.console on in
                record { on_screen = on'; keeps = keep; word = c; others = (refl, refl, refl) })
              (λ _.
                if_cases (IsSafePair r s) (r.eax == sys_getcpl) _ _
                  (λ _. record {
                    on_screen = on;
                    keeps = quiet;
                    word = omega (arith, bit_and_mask 2 r.cs);
                    others = (refl, refl, refl);
                  })
                  (λ _. record {
                    on_screen = on;
                    keeps = quiet;
                    word = omega arith;
                    others = (refl, refl, refl);
                  }))))
