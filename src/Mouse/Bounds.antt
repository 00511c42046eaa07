-- ===== src/Mouse/Bounds.antt =====
-- The cursor of drivers/mouse.c stays on the screen.
use pumpkin_os.Prelude.{ℕ, ◌<◌, ◌≡◌, refl, arith, ◌==◌, List, [], ◌∷◌, bit_and}
use pumpkin_os.Prelude.{Bool-cases, inl, inr}
use pumpkin_os.Prelude.Int.{ℤ, pos, negsuc, ◌+ℤ◌, ◌-ℤ◌, pos_part, neg_part}
use pumpkin_os.Mouse.{
  Mouse, Reading, mouse_set_bounds, clamp, delta, accelerate, apply_packet, feed, mouse_irq,
}

-- A coordinate on a screen of `bound` pixels.
abbrev pub On : ℕ → ℤ → Type 0
On bound n = (neg_part n ≡ 0) × (pos_part n < bound)

pub record IsOnScreen (s : Mouse) : Type 0 where
  pub across : On s.bound_w s.mx
  pub down : On s.bound_h s.my
  pub in_packet : s.phase < 3

pub clamp-On : (bound : ℕ) (n : ℤ) → 0 < bound → On bound (clamp bound n)
unfolding clamp
clamp-On bound (pos n) h = ground arith
clamp-On bound (negsuc n) h = ground arith

apply_packet-IsOnScreen : (s : Mouse) → IsOnScreen s → IsOnScreen (apply_packet s)
unfolding apply_packet
apply_packet-IsOnScreen s v =
    let dx = accelerate s.bound_w (delta s.second (bit_and s.first 0x10)) in
    let dy = accelerate s.bound_w (delta s.third (bit_and s.first 0x20)) in
    elim (Bool-cases (bit_and s.first 0xC0 == 0)) [
      | inl e ↦ rw e (record {
        across = clamp-On s.bound_w (s.mx +ℤ dx) (omega (arith, v.across.1));
        down = clamp-On s.bound_h (s.my -ℤ dy) (omega (arith, v.down.1));
        in_packet = v.in_packet;
      })
      | inr e ↦ rw e v
    ]

feed-IsOnScreen : (byte : ℕ) (s : Mouse) → IsOnScreen s → IsOnScreen (feed byte s)
unfolding feed
feed-IsOnScreen byte s v =
    let whole =
      apply_packet-IsOnScreen (record s { third = byte; phase = 0 })
        (record { across = v.across; down = v.down; in_packet = omega arith }) in
    ground (arith, whole)

pub mouse_set_bounds-IsOnScreen :
    (w h : ℕ) (s : Mouse) → 0 < w → 0 < h → s.phase < 3 → IsOnScreen (mouse_set_bounds w h s)
unfolding mouse_set_bounds
mouse_set_bounds-IsOnScreen w h s a b c = record {
  across = (refl, omega arith);
  down = (refl, omega arith);
  in_packet = c;
}

-- The handler keeps the cursor on the screen, whatever it reads from the ports.
pub mouse_irq-IsOnScreen :
    (rs : List Reading) (s : Mouse) → IsOnScreen s → IsOnScreen (mouse_irq rs s)
unfolding mouse_irq
mouse_irq-IsOnScreen [] s v = v
mouse_irq-IsOnScreen (r ∷ rs) s v =
    let more = mouse_irq-IsOnScreen rs (feed r.byte s) (feed-IsOnScreen r.byte s v) in
    elim (Bool-cases (bit_and r.status 0x01 == 0)) [
      | inl e ↦ rw e v
      | inr e ↦ elim (Bool-cases (bit_and r.again 0x20 == 0)) [
        | inl e' ↦ rw (e, e') v
        | inr e' ↦ rw (e, e') more
      ]
    ]
