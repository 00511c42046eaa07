-- ===== src/Keyboard/Key.antt =====
-- The keys of drivers/keyboard.h that have no character.
use package.pumpkin_os.Prelude.{ℕ}

abbrev pub up : ℕ
up = 0x11

abbrev pub down : ℕ
down = 0x12

abbrev pub left : ℕ
left = 0x13

abbrev pub right : ℕ
right = 0x14

abbrev pub home : ℕ
home = 0x15

abbrev pub end : ℕ
end = 0x16

abbrev pub pgup : ℕ
pgup = 0x17

abbrev pub pgdn : ℕ
pgdn = 0x18

abbrev pub del : ℕ
del = 0x19
