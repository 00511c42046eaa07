-- ===== src/Timer/Tests.antt =====
-- Runs of drivers/timer.c.
use pumpkin_os.Prelude.{◌≡◌, refl, ◌^◌, ◌-◌, [], ◌∷◌, some, none}
use pumpkin_os.Timer.{
  Timer, divisor_of, timer_init, timer_irq, sleep_until, ticks_needed, timer_sleep,
}

abbrev at_start : Timer
at_start = record { ticks = 0; frequency = 0; ports = [] }

abbrev near_wrap : Timer
near_wrap = record { ticks = 2 ^ 32 - 1; frequency = 100; ports = [] }

-- 100 Hz by default; a sleep near the wrap of the counter ends at once.
timer-run :
    let s = timer_init 0 at_start in
    (s.frequency ≡ 100)
    × (s.ports ≡ (0x43, 0x36) ∷ (0x40, 0x9B) ∷ (0x40, 0x2E) ∷ [])
    × (timer_sleep 20 2 s ≡ some (record s { ticks = 2 }))
    × (timer_sleep 20 1 s ≡ none)
    × (timer_sleep 50 0 near_wrap ≡ some near_wrap)
unfolding timer_init divisor_of timer_irq sleep_until ticks_needed timer_sleep
timer-run = (refl, refl, refl, refl, refl)
