-- ===== src/Keyboard.antt =====
-- drivers/keyboard.c: scan codes to characters in a ring buffer. The interrupt handler and the reader
-- are functions on the file's static variables; the controller's ports stay outside.
pub mod Key
pub mod Ring
pub mod Decode
pub mod Letters
pub mod Sequence
mod Tests
use package.pumpkin_os.Prelude.{ℕ, zero, suc, ◌+◌, ◌-◌, ◌%◌, bit_and}
use package.pumpkin_os.Prelude.{Bool, false, true, not, ◌&&◌, ◌||◌, ltb, leb, ◌==◌, if◌then◌else◌}
use package.pumpkin_os.Prelude.{Option, none, some, List, [], ◌∷◌, get_or, set, replicate}
use package.pumpkin_os.Keyboard.Key

abbrev pub keymap : List ℕ
keymap =
    0
    ∷ 27
    ∷ b'1'
    ∷ b'2'
    ∷ b'3'
    ∷ b'4'
    ∷ b'5'
    ∷ b'6'
    ∷ b'7'
    ∷ b'8'
    ∷ b'9'
    ∷ b'0'
    ∷ b'-'
    ∷ b'='
    ∷ 8
    ∷ 9
    ∷ b'q'
    ∷ b'w'
    ∷ b'e'
    ∷ b'r'
    ∷ b't'
    ∷ b'y'
    ∷ b'u'
    ∷ b'i'
    ∷ b'o'
    ∷ b'p'
    ∷ b'['
    ∷ b']'
    ∷ 10
    ∷ 0
    ∷ b'a'
    ∷ b's'
    ∷ b'd'
    ∷ b'f'
    ∷ b'g'
    ∷ b'h'
    ∷ b'j'
    ∷ b'k'
    ∷ b'l'
    ∷ b';'
    ∷ 39
    ∷ b'`'
    ∷ 0
    ∷ 92
    ∷ b'z'
    ∷ b'x'
    ∷ b'c'
    ∷ b'v'
    ∷ b'b'
    ∷ b'n'
    ∷ b'm'
    ∷ b','
    ∷ b'.'
    ∷ b'/'
    ∷ 0
    ∷ b'*'
    ∷ 0
    ∷ 32
    ∷ 0
    ∷ 0
    ∷ 0
    ∷ 0
    ∷ 0
    ∷ 0
    ∷ 0
    ∷ 0
    ∷ 0
    ∷ 0
    ∷ 0
    ∷ 0
    ∷ 0
    ∷ b'7'
    ∷ b'8'
    ∷ b'9'
    ∷ b'-'
    ∷ b'4'
    ∷ b'5'
    ∷ b'6'
    ∷ b'+'
    ∷ b'1'
    ∷ b'2'
    ∷ b'3'
    ∷ b'0'
    ∷ b'.'
    ∷ replicate 44 0

abbrev pub keymap_shift : List ℕ
keymap_shift =
    0
    ∷ 27
    ∷ b'!'
    ∷ b'@'
    ∷ b'#'
    ∷ b'$'
    ∷ b'%'
    ∷ b'^'
    ∷ b'&'
    ∷ b'*'
    ∷ b'('
    ∷ b')'
    ∷ b'_'
    ∷ b'+'
    ∷ 8
    ∷ 9
    ∷ b'Q'
    ∷ b'W'
    ∷ b'E'
    ∷ b'R'
    ∷ b'T'
    ∷ b'Y'
    ∷ b'U'
    ∷ b'I'
    ∷ b'O'
    ∷ b'P'
    ∷ b'{'
    ∷ b'}'
    ∷ 10
    ∷ 0
    ∷ b'A'
    ∷ b'S'
    ∷ b'D'
    ∷ b'F'
    ∷ b'G'
    ∷ b'H'
    ∷ b'J'
    ∷ b'K'
    ∷ b'L'
    ∷ b':'
    ∷ 34
    ∷ b'~'
    ∷ 0
    ∷ b'|'
    ∷ b'Z'
    ∷ b'X'
    ∷ b'C'
    ∷ b'V'
    ∷ b'B'
    ∷ b'N'
    ∷ b'M'
    ∷ b'<'
    ∷ b'>'
    ∷ b'?'
    ∷ 0
    ∷ b'*'
    ∷ 0
    ∷ 32
    ∷ replicate 70 0

abbrev pub kbd_buf_size : ℕ
kbd_buf_size = 128

pub record Kbd : Type 0 where
  pub shift_down : Bool
  pub caps_lock : Bool
  pub extended : Bool
  pub buf : List ℕ
  pub head : ℕ
  pub tail : ℕ

pub kbd_enqueue : ℕ → Kbd → Kbd
kbd_enqueue c s =
    let next = (s.head + 1) % kbd_buf_size in
    if next == s.tail then s else record s { buf = set s.buf s.head c; head = next }

-- The `switch` on an extended key: its character, 0 for a key that has none.
pub extended_key : ℕ → ℕ
extended_key sc =
    if sc == 0x48
    then Key.up
    else if sc == 0x50
    then Key.down
    else if sc == 0x4B
    then Key.left
    else if sc == 0x4D
    then Key.right
    else if sc == 0x47
    then Key.home
    else if sc == 0x4F
    then Key.end
    else if sc == 0x49
    then Key.pgup
    else if sc == 0x51
    then Key.pgdn
    else if sc == 0x53
    then Key.del
    else 0

-- The key after the prefix 0xE0.
pub extended_irq : ℕ → Kbd → Kbd
unfolding kbd_enqueue extended_key
extended_irq sc s =
    if not (bit_and sc 0x80 == 0)
    then s
    else if extended_key sc == 0
    then s
    else kbd_enqueue (extended_key sc) s

-- "Caps lock flips the case of letters only."
abbrev pub flip_case : ℕ → ℕ
flip_case c =
    if leb b'a' c && leb c b'z' then c - 32 else if leb b'A' c && leb c b'Z' then c + 32 else c

-- The character of a make code, 0 for none.
pub key_char : Bool → Bool → ℕ → ℕ
key_char shift caps sc =
    let c = if shift then get_or keymap_shift sc 0 else get_or keymap sc 0 in
    if c == 0 then 0 else if caps then flip_case c else c

-- From `char c = ...` on.
pub press_irq : ℕ → Kbd → Kbd
unfolding key_char kbd_enqueue
press_irq sc s =
    if key_char s.shift_down s.caps_lock sc == 0
    then s
    else kbd_enqueue (key_char s.shift_down s.caps_lock sc) s

abbrev pub is_shift : ℕ → Bool
is_shift sc = sc == 0x2A || sc == 0x36

-- The handler, for the byte `sc` that it reads from the data port.
pub keyboard_irq : ℕ → Kbd → Kbd
unfolding extended_irq press_irq
keyboard_irq sc s =
    if sc == 0xE0
    then record s { extended = true }
    else if s.extended
    then extended_irq sc (record s { extended = false })
    else if not (bit_and sc 0x80 == 0)
    then (if is_shift (bit_and sc 0x7F) then record s { shift_down = false } else s)
    else if is_shift sc
    then record s { shift_down = true }
    else if sc == 0x3A
    then record s { caps_lock = not s.caps_lock }
    else press_irq sc s

pub keyboard_haschar : Kbd → Bool
keyboard_haschar s = not (s.head == s.tail)

-- The end of `keyboard_getchar`: the character, and what is left.
pub take_char : Kbd → ℕ × Kbd
take_char s = (get_or s.buf s.tail 0, record s { tail = (s.tail + 1) % kbd_buf_size })

-- `keyboard_getchar`, where `scs` are the scan codes that still arrive: each interrupt ends one `hlt`.
-- The result has the codes that have not arrived yet; `none` is a reader that sleeps on.
pub keyboard_getchar : List ℕ → Kbd → Option (ℕ × List ℕ × Kbd)
unfolding keyboard_irq take_char
keyboard_getchar [] s =
    if s.head == s.tail then none else some ((take_char s).0, [], (take_char s).1)
keyboard_getchar (sc ∷ scs) s =
    let waited = keyboard_getchar scs (keyboard_irq sc s) in
    if s.head == s.tail then waited else some ((take_char s).0, sc ∷ scs, (take_char s).1)

-- The file's variables before the first key, with what the buffer happens to hold.
abbrev pub kbd_start : List ℕ → Kbd
kbd_start buf = record {
  shift_down = false;
  caps_lock = false;
  extended = false;
  buf = buf;
  head = 0;
  tail = 0;
}
