-- ===== src/Console.antt =====
-- drivers/console.c: the text screen, the serial mirror, and the printing of strings and numbers.
-- `cells` is the memory at 0xB8000 by 16-bit cell, `serial` the bytes sent to COM1 in order, `setup`
-- the port writes of `serial_init`, and `crtc_high` and `crtc_low` the two registers of the hardware
-- cursor. The wait for the transmit buffer of COM1 stays outside. A `char` is a byte.
pub mod Cursor
pub mod Scroll
pub mod Numbers
pub mod Hex
pub mod Line
mod Tests
use package.pumpkin_os.Prelude.{
  ℕ, zero, suc, ◌+◌, ◌-◌, ◌*◌, ◌/◌, ◌%◌, ◌^◌, bit_and, bit_or, ltb, leb, ◌==◌, if◌then◌else◌,
}
use package.pumpkin_os.Prelude.{List, [], ◌∷◌, ◌++◌, update, get_or}

abbrev pub vga_cols : ℕ
vga_cols = 80

abbrev pub vga_rows : ℕ
vga_rows = 25

abbrev pub vga_light_grey : ℕ
vga_light_grey = 7

abbrev pub vga_black : ℕ
vga_black = 0

pub record Console : Type 0 where
  pub cells : ℕ → ℕ
  pub cur_row : ℕ
  pub cur_col : ℕ
  pub cur_attr : ℕ
  pub crtc_high : ℕ
  pub crtc_low : ℕ
  pub serial : List ℕ
  pub setup : List (ℕ × ℕ)

pub vga_cell : ℕ → ℕ → ℕ
vga_cell c attr = bit_or (c % 2 ^ 8) (attr * 2 ^ 8)

pub console_set_color : ℕ → ℕ → Console → Console
console_set_color fg bg s = record s { cur_attr = bit_or (fg % 2 ^ 8) ((bg * 2 ^ 4) % 2 ^ 8) }

-- `cur_row * VGA_COLS + cur_col`, a `size_t` of 32 bits.
pub position : Console → ℕ
position s = (s.cur_row * vga_cols + s.cur_col) % 2 ^ 32

-- The two pairs of `outb`: the low byte to register 0x0F, the high byte to 0x0E.
pub vga_move_cursor : Console → Console
vga_move_cursor s =
    let pos = position s % 2 ^ 16 in
    record s { crtc_low = bit_and pos 0xFF; crtc_high = bit_and (pos / 2 ^ 8) 0xFF }

-- A loop that writes `blank` to `n` cells from `i` on.
pub blank_from : ℕ → ℕ → ℕ → (ℕ → ℕ) → ℕ → ℕ
blank_from blank i zero mem = mem
blank_from blank i (suc n) mem = blank_from blank (i + 1) n (update i blank mem)

pub console_clear : Console → Console
console_clear s = vga_move_cursor (record s {
  cells = blank_from (vga_cell b' ' s.cur_attr) 0 (vga_cols * vga_rows) s.cells;
  cur_row = 0;
  cur_col = 0;
})

-- The inner loop of `vga_scroll` for row `r`, from column `c` on, `n` columns.
pub copy_row : ℕ → ℕ → ℕ → (ℕ → ℕ) → ℕ → ℕ
copy_row r c zero mem = mem
copy_row r c (suc n) mem =
    copy_row r (c + 1) n (update ((r - 1) * vga_cols + c) (mem (r * vga_cols + c)) mem)

-- The outer loop, from row `r` on, `n` rows.
pub copy_rows : ℕ → ℕ → (ℕ → ℕ) → ℕ → ℕ
copy_rows r zero mem = mem
copy_rows r (suc n) mem = copy_rows (r + 1) n (copy_row r 0 vga_cols mem)

pub vga_scroll : Console → Console
vga_scroll s = record s {
  cells =
      blank_from (vga_cell b' ' s.cur_attr) ((vga_rows - 1) * vga_cols) vga_cols
        (copy_rows 1 (vga_rows - 1) s.cells);
  cur_row = vga_rows - 1;
}

-- `VGA_MEMORY[cur_row * VGA_COLS + cur_col] = vga_cell(c, cur_attr)`
pub vga_store : ℕ → Console → Console
vga_store c s = record s { cells = update (position s) (vga_cell c s.cur_attr) s.cells }

-- `case '\b'`
pub vga_backspace : Console → Console
vga_backspace s =
    if s.cur_col == 0 then s else vga_store b' ' (record s { cur_col = s.cur_col - 1 })

pub vga_default : ℕ → Console → Console
vga_default c s = let t = vga_store c s in record t { cur_col = (t.cur_col + 1) % 2 ^ 32 }

-- The `switch` of `vga_putc`.
pub vga_switch : ℕ → Console → Console
vga_switch c s =
    if c == 10
    then record s { cur_col = 0; cur_row = (s.cur_row + 1) % 2 ^ 32 }
    else if c == 13
    then record s { cur_col = 0 }
    else if c == 9
    then record s { cur_col = bit_and ((s.cur_col + 4) % 2 ^ 32) (2 ^ 32 - 1 - 3) }
    else if c == 8
    then vga_backspace s
    else vga_default c s

-- `if (cur_col >= VGA_COLS)`
pub wrap_line : Console → Console
wrap_line s =
    if leb vga_cols s.cur_col
    then record s { cur_col = 0; cur_row = (s.cur_row + 1) % 2 ^ 32 }
    else s

-- `if (cur_row >= VGA_ROWS)`
pub scroll_full : Console → Console
scroll_full s = if leb vga_rows s.cur_row then vga_scroll s else s

pub vga_putc : ℕ → Console → Console
vga_putc c s = scroll_full (wrap_line (vga_switch c s))

pub serial_init : Console → Console
serial_init s = record s {
  setup =
      s.setup
      ++ (0x3F9, 0x00)
        ∷ (0x3FB, 0x80)
        ∷ (0x3F8, 0x03)
        ∷ (0x3F9, 0x00)
        ∷ (0x3FB, 0x03)
        ∷ (0x3FA, 0xC7)
        ∷ (0x3FC, 0x0B)
        ∷ [];
}

pub serial_putc : ℕ → Console → Console
serial_putc c s = record s { serial = s.serial ++ c ∷ [] }

pub console_init : Console → Console
console_init s = console_clear (console_set_color vga_light_grey vga_black (serial_init s))

-- The two `if`s of `console_putc`, which write to the serial port.
pub mirror : ℕ → Console → Console
mirror c s =
    let t : Console = if c == 10 then serial_putc 13 s else s in
    if c == 8 then serial_putc 8 (serial_putc b' ' (serial_putc 8 t)) else serial_putc c t

pub console_putc : ℕ → Console → Console
console_putc c s = vga_move_cursor (vga_putc c (mirror c s))

-- `for (; *s; s++)`: the memory that the pointer points to, as far as its end or a zero.
pub console_write : List ℕ → Console → Console
console_write [] s = s
console_write (c ∷ cs) s =
    let more = console_write cs (console_putc c s) in if c == 0 then s else more

-- `while (value > 0)`, with fuel: `buf`, the last digit first.
pub dec_buffer : ℕ → ℕ → List ℕ
dec_buffer zero value = []
dec_buffer (suc n) value =
    let more = dec_buffer n (value / 10) in if value == 0 then [] else (b'0' + value % 10) ∷ more

-- `while (i-- > 0)`, on the buffer's first `i` characters.
pub write_back : List ℕ → Console → Console
write_back [] s = s
write_back (c ∷ buf) s = console_putc c (write_back buf s)

pub console_write_dec : ℕ → Console → Console
console_write_dec value s =
    if value == 0 then console_putc b'0' s else write_back (dec_buffer value value) s

abbrev pub hex_digits : List ℕ
hex_digits =
    b'0' ∷ b'1' ∷ b'2' ∷ b'3' ∷ b'4' ∷ b'5' ∷ b'6' ∷ b'7' ∷ b'8' ∷ b'9' ∷ b'A' ∷ b'B' ∷ b'C' ∷ b'D'
    ∷ b'E' ∷ b'F' ∷ []

-- The `for` over `shift`, which is `4 * n - 4` in the round with `n` rounds to go.
pub hex_loop : ℕ → ℕ → Console → Console
hex_loop zero value s = s
hex_loop (suc n) value s =
    hex_loop n value (console_putc (get_or hex_digits (bit_and (value / 2 ^ (4 * n)) 0xF) 0) s)

pub console_write_hex : ℕ → Console → Console
console_write_hex value s = hex_loop 8 value (console_write (b'0' ∷ b'x' ∷ []) s)
