-- ===== src/Net/State/Tests.antt =====
-- The theorem about the wait loops at a concrete input.
use pumpkin_os.Prelude.{ℕ, ◌-◌, ◌%◌, ◌^◌, ◌≡◌, arith, ltb, ltb→lt, none, Option, [], Bool}
use pumpkin_os.Net.State.{Net, wait_loop}
use pumpkin_os.Net.State.Wait.{RunsOut, wait_loop-enough}
use pumpkin_os.Net.Bench.{Bench, bench_nic, bench_net}

-- A loop that polls until tick 3.
abbrev before_three : ℕ → Bool
before_three t = ltb t 3

abbrev no_answer : Net Bench → Option ℕ × Net Bench
no_answer u = (none, u)

abbrev ticks_left : Net Bench → ℕ
ticks_left s = 3 - s.dev.clock % 2 ^ 32

ticks-RunsOut : RunsOut bench_nic before_three no_answer ticks_left
ticks-RunsOut s h e = omega (arith, ltb→lt _ _ h)

wait_fuel-run :
    wait_loop bench_nic before_three no_answer 4 (bench_net [])
    ≡ wait_loop bench_nic before_three no_answer 9 (bench_net [])
wait_fuel-run =
    wait_loop-enough bench_nic before_three no_answer ticks_left ticks-RunsOut 4 9 (bench_net [])
      (omega arith) (omega arith)
