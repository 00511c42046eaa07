-- ===== src/Timer.antt =====
-- drivers/timer.c: the divisor of the timer, the tick counter and the sleep. A sleep is told how many
-- interrupts come; `ports` are the bytes that go to the ports.
pub mod Divisor
mod Tests
use package.pumpkin_os.Prelude.{
  ℕ, zero, suc, ◌+◌, ◌*◌, ◌/◌, ◌%◌, ◌^◌, bit_and, ltb, ◌==◌, if◌then◌else◌, List, [], ◌∷◌, ◌++◌,
}
use package.pumpkin_os.Prelude.{Option, none, some}

abbrev pub pit_base_freq : ℕ
pit_base_freq = 1193182

-- The static variables, and the writes to the ports of the timer.
pub record Timer : Type 0 where
  pub ticks : ℕ
  pub frequency : ℕ
  pub ports : List (ℕ × ℕ)

-- `divisor`, from the division to the clamp.
pub divisor_of : ℕ → ℕ
divisor_of frequency_hz =
    let divisor = pit_base_freq / frequency_hz in
    let least = if divisor == 0 then 1 else divisor in if ltb 0xFFFF least then 0xFFFF else least

-- `if (frequency_hz == 0) frequency_hz = 100;`
abbrev pub or_default : ℕ → ℕ
or_default frequency_hz = if frequency_hz == 0 then 100 else frequency_hz

pub timer_init : ℕ → Timer → Timer
timer_init frequency_hz s =
    let divisor = divisor_of (or_default frequency_hz) in
    record s {
      frequency = or_default frequency_hz;
      ports =
          s.ports
          ++ (0x43, 0x36)
            ∷ (0x40, bit_and divisor 0xFF)
            ∷ (0x40, bit_and (divisor / 2 ^ 8) 0xFF)
            ∷ [];
    }

pub timer_irq : Timer → Timer
timer_irq s = record s { ticks = (s.ticks + 1) % 2 ^ 32 }

-- `while (ticks < target)`, with the interrupts that still come; `none` sleeps on.
pub sleep_until : ℕ → ℕ → Timer → Option Timer
sleep_until target zero s = if ltb s.ticks target then none else some s
sleep_until target (suc irqs) s =
    let woken = sleep_until target irqs (timer_irq s) in
    if ltb s.ticks target then woken else some s

-- `needed`, at least one tick.
pub ticks_needed : ℕ → ℕ → ℕ
ticks_needed ms frequency =
    let needed = ((ms * frequency) % 2 ^ 32) / 1000 in if needed == 0 then 1 else needed

pub timer_sleep : ℕ → ℕ → Timer → Option Timer
timer_sleep ms irqs s =
    let target = (s.ticks + ticks_needed ms s.frequency) % 2 ^ 32 in
    let slept = sleep_until target irqs s in if s.frequency == 0 then some s else slept
