-- ===== src/Keyboard/Tests.antt =====
-- Runs of drivers/keyboard.c: shift, the key a, release of shift, the key a.
use pumpkin_os.Prelude.{ℕ, ◌≡◌, refl, arith, List, [], ◌∷◌}
use pumpkin_os.Prelude.{replicate}
use pumpkin_os.Keyboard.{Kbd, kbd_start}
use pumpkin_os.Keyboard.Ring.{IsValid, queued}
use pumpkin_os.Keyboard.Decode.{keys}
use pumpkin_os.Keyboard.Sequence.{Event, scanned, polled, run, play}
use pumpkin_os.Keyboard.Sequence.{run-play}

abbrev start : Kbd
start = kbd_start (replicate 128 7)

start-IsValid : IsValid start
start-IsValid = record { size = refl; head_in = omega arith; tail_in = omega arith }

abbrev codes : List ℕ
codes = 0x2A ∷ 0x1E ∷ 0xAA ∷ 0x1E ∷ []

abbrev events : List Event
events = scanned 0x2A ∷ scanned 0x1E ∷ polled ∷ scanned 0xAA ∷ polled ∷ scanned 0x1E ∷ polled ∷ []

run-play_example : run events start ≡ play events (keys start) (queued start)
run-play_example =
    run-play events start (omega arith, (omega arith, (omega arith, (omega arith, tt))))
      start-IsValid
