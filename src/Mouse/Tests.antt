-- ===== src/Mouse/Tests.antt =====
-- The theorems about drivers/mouse.c at concrete inputs.
use pumpkin_os.Prelude.{ℕ, ◌≡◌, refl, arith, [], ◌∷◌}
use pumpkin_os.Prelude.Int.{pos}
use pumpkin_os.Mouse.{Mouse, Reading, mouse_irq}
use pumpkin_os.Mouse.Bounds.{IsOnScreen, mouse_irq-IsOnScreen}
use pumpkin_os.Mouse.Packet.{Frame}

abbrev start : Mouse
start = record {
  bound_w = 320;
  bound_h = 200;
  mx = pos 160;
  my = pos 100;
  buttons = 0;
  seq = 0;
  first = 0;
  second = 0;
  third = 0;
  phase = 0;
}

start-IsOnScreen : IsOnScreen start
start-IsOnScreen = record {
  across = (refl, omega arith);
  down = (refl, omega arith);
  in_packet = omega arith;
}

abbrev reading : ℕ → Reading
reading b = record { status = 0x21; again = 0x21; byte = b }

mouse_irq-IsOnScreen_example :
    IsOnScreen (mouse_irq (reading 0x39 ∷ reading 0x01 ∷ reading 0x02 ∷ []) start)
mouse_irq-IsOnScreen_example =
    mouse_irq-IsOnScreen (reading 0x39 ∷ reading 0x01 ∷ reading 0x02 ∷ []) start start-IsOnScreen

abbrev frame : Frame
frame = record { stray = 0x01 ∷ 0x02 ∷ []; head = 0x19; across = 0x05; down = 0x06 }

moved : (mouse_irq (reading 0x08 ∷ reading 0x05 ∷ reading 0x06 ∷ []) start).mx ≡ pos 165
unfolding mouse_irq
moved = refl
