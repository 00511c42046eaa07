-- ===== src/Mouse.antt =====
-- drivers/mouse.c: the 3-byte packets of the mouse, and the cursor that they move. The ports of the
-- controller stay outside: the handler takes what it reads from them.
pub mod Bounds
pub mod Packet
mod Tests
use package.pumpkin_os.Prelude.{
  ℕ, suc, ◌+◌, ◌-◌, ◌/◌, ◌%◌, ◌^◌, bit_and, Bool, ltb, leb, ◌==◌, if◌then◌else◌, List, [], ◌∷◌,
}
use package.pumpkin_os.Prelude.Int.{ℤ, pos, negsuc, sub_ℕ, ◌+ℤ◌, ◌-ℤ◌, scale, abs, is_neg, pos_part}

-- The static variables. The bounds are positive in every call, so they are numbers.
pub record Mouse : Type 0 where
  pub bound_w : ℕ
  pub bound_h : ℕ
  pub mx : ℤ
  pub my : ℤ
  pub buttons : ℕ
  pub seq : ℕ
  pub first : ℕ
  pub second : ℕ
  pub third : ℕ
  pub phase : ℕ

pub mouse_set_bounds : ℕ → ℕ → Mouse → Mouse
mouse_set_bounds w h s = record s { bound_w = w; bound_h = h; mx = pos (w / 2); my = pos (h / 2) }

-- A movement byte with its sign bit, which is set where `sign` is not 0.
pub delta : ℕ → ℕ → ℤ
delta byte sign = if sign == 0 then pos byte else sub_ℕ byte 256

-- The pointer acceleration.
pub accelerate : ℕ → ℤ → ℤ
accelerate bound_w d =
    if leb 640 bound_w then (if ltb 5 (abs d) then scale 4 d else scale 2 d) else d

-- `if (n < 0) n = 0; else if (n >= bound) n = bound - 1;`
pub clamp : ℕ → ℤ → ℤ
clamp bound n = if is_neg n then pos 0 else if leb bound (pos_part n) then sub_ℕ bound 1 else n

-- The end of the third phase, where the packet is whole.
pub apply_packet : Mouse → Mouse
unfolding delta accelerate clamp
apply_packet s =
    let dx = accelerate s.bound_w (delta s.second (bit_and s.first 0x10)) in
    let dy = accelerate s.bound_w (delta s.third (bit_and s.first 0x20)) in
    if bit_and s.first 0xC0 == 0
    then record s {
      mx = clamp s.bound_w (s.mx +ℤ dx);
      my = clamp s.bound_h (s.my -ℤ dy);
      buttons = bit_and s.first 0x07;
      seq = (s.seq + 1) % 2 ^ 32;
    }
    else s

pub feed : ℕ → Mouse → Mouse
unfolding apply_packet
feed byte s =
    if s.phase == 0
    then (if bit_and byte 0x08 == 0 then s else record s { first = byte; phase = 1 })
    else if s.phase == 1
    then record s { second = byte; phase = 2 }
    else if s.phase == 2
    then apply_packet (record s { third = byte; phase = 0 })
    else s

-- What one round of `mouse_irq` reads: the status twice, and the byte.
pub record Reading : Type 0 where
  pub status : ℕ
  pub again : ℕ
  pub byte : ℕ

-- The loop of `mouse_irq`; after the list the status has bit 0 clear.
pub mouse_irq : List Reading → Mouse → Mouse
unfolding feed
mouse_irq [] s = s
mouse_irq (r ∷ rs) s =
    let more = mouse_irq rs (feed r.byte s) in
    if bit_and r.status 0x01 == 0 then s else if bit_and r.again 0x20 == 0 then s else more
