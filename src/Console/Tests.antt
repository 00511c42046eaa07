-- ===== src/Console/Tests.antt =====
-- Runs of drivers/console.c.
use pumpkin_os.Prelude.{◌≡◌, refl, arith, [], ◌∷◌, length}
use pumpkin_os.Console.{
  Console, vga_cell, console_set_color, position, vga_move_cursor, blank_from, console_clear,
  copy_row, copy_rows, vga_scroll, vga_store, vga_backspace, vga_default, vga_switch, wrap_line,
  scroll_full, vga_putc, serial_init, serial_putc, console_init, mirror, console_putc,
  console_write, dec_buffer, write_back, console_write_dec, hex_loop, console_write_hex,
}
use pumpkin_os.Console.Cursor.{OnScreen, KeepsBehind, Blinks, console_putc-OnScreen}
use pumpkin_os.Console.Numbers.{Shows, console_write_dec_lem}

-- The cursor on the last cell.
abbrev last_cell : Console
last_cell = record {
  cells = λ i. i;
  cur_row = 24;
  cur_col = 79;
  cur_attr = 7;
  crtc_high = 7;
  crtc_low = 207;
  serial = [];
  setup = [];
}

abbrev third_line : Console
third_line = record last_cell { cur_row = 2; cur_col = 10 }

last_cell-OnScreen : OnScreen last_cell
last_cell-OnScreen = record { row = omega arith; col = omega arith }

console_putc-OnScreen_example :
    OnScreen (console_putc b'A' last_cell)
    × KeepsBehind last_cell (console_putc b'A' last_cell)
    × Blinks (console_putc b'A' last_cell)
console_putc-OnScreen_example = console_putc-OnScreen b'A' last_cell last_cell-OnScreen

console_write_dec_lem_example : Shows 4096 last_cell (console_write_dec 4096 last_cell)
console_write_dec_lem_example = console_write_dec_lem 4096 last_cell (omega arith)

-- The screen after a start: blank, light grey on black, with seven writes to the serial port's set-up.
init-run :
    let s = console_init last_cell in
    (s.cells 1999 ≡ 0x0720) × (s.cur_col ≡ 0) × (s.crtc_low ≡ 0) × (length s.setup ≡ 7)
unfolding console_init serial_init console_set_color console_clear blank_from vga_cell
    vga_move_cursor position
init-run = (refl, refl, refl, refl)

-- A line, a tab, a character, and its removal.
write-run :
    let s = console_write (b'A' ∷ 10 ∷ 9 ∷ b'B' ∷ 8 ∷ []) third_line in
    (s.cur_row ≡ 3)
    × (s.cur_col ≡ 4)
    × (s.cells 170 ≡ 0x0741)
    × (s.cells 244 ≡ 0x0720)
    × (s.serial ≡ b'A' ∷ 13 ∷ 10 ∷ 9 ∷ b'B' ∷ 8 ∷ b' ' ∷ 8 ∷ [])
unfolding console_write console_putc mirror serial_putc vga_putc vga_switch vga_backspace
    vga_default vga_store position vga_cell wrap_line scroll_full vga_move_cursor
write-run = (refl, refl, refl, refl, refl)

numbers-run :
    ((console_write_dec 4070 third_line).serial ≡ b'4' ∷ b'0' ∷ b'7' ∷ b'0' ∷ [])
    × ((console_write_hex 0xBEEF third_line).serial
        ≡ b'0' ∷ b'x' ∷ b'0' ∷ b'0' ∷ b'0' ∷ b'0' ∷ b'B' ∷ b'E' ∷ b'E' ∷ b'F' ∷ [])
unfolding console_write_dec dec_buffer write_back console_write_hex hex_loop console_write
    console_putc mirror serial_putc vga_putc vga_switch vga_backspace vga_default vga_store position
    vga_cell wrap_line scroll_full vga_move_cursor
numbers-run = (refl, refl)

-- The last cell's character scrolls the screen.
scroll-run :
    let s = console_putc b'!' last_cell in
    (s.cells 1919 ≡ 0x0721) × (s.cells 0 ≡ 80) × (s.cells 1920 ≡ 0x0720) × (s.cur_row ≡ 24)
unfolding console_putc mirror serial_putc vga_putc vga_switch vga_backspace vga_default vga_store
    position vga_cell wrap_line scroll_full vga_scroll blank_from copy_rows copy_row vga_move_cursor
scroll-run = (refl, refl, refl, refl)
