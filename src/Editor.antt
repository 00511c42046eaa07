-- ===== src/Editor.antt =====
-- shell/editor.c: the buffer of the text editor and the movements of its cursor. What it draws stays
-- outside. The C integers are never negative here; `cl - 1` on line 0 stops at 0, where `goto_line`
-- would put it.
pub mod Shifts
pub mod Edits
pub mod Lines
pub mod Keys
mod Tests
use package.pumpkin_os.Prelude.{ℕ, zero, suc, ◌+◌, ◌-◌, ◌*◌}
use package.pumpkin_os.Prelude.{Bool, true, ◌&&◌, ltb, leb, ◌==◌, if◌then◌else◌, List, get_or, set}

abbrev pub edit_max : ℕ
edit_max = 64 * 1024

abbrev pub newline : ℕ
newline = 10

pub record Editor : Type 0 where
  pub buf : List ℕ
  pub len : ℕ
  pub cursor : ℕ
  pub goal_col : ℕ
  pub modified : Bool

-- The loop of `total_lines` from `i`, with `n` characters to go.
pub count_lines : List ℕ → ℕ → ℕ → ℕ
count_lines buf i zero = 1
count_lines buf i (suc n) =
    let more = count_lines buf (i + 1) n in if get_or buf i 0 == newline then more + 1 else more

pub total_lines : Editor → ℕ
unfolding count_lines
total_lines s = count_lines s.buf 0 s.len

-- The loop of `line_start` from `i`, where `l` lines have ended, with `n` characters to go;
-- at the end `i` is `len`.
pub find_line : List ℕ → ℕ → ℕ → ℕ → ℕ → ℕ
find_line buf line i l zero = i
find_line buf line i l (suc n) =
    let next = find_line buf line (i + 1) (l + 1) n in
    let same = find_line buf line (i + 1) l n in
    if get_or buf i 0 == newline then if l + 1 == line then i + 1 else next else same

pub line_start : ℕ → Editor → ℕ
unfolding find_line
line_start line s = if line == 0 then 0 else find_line s.buf line 0 0 s.len

-- The loop of `line_len`: where the line at `e` ends.
pub line_end : List ℕ → ℕ → ℕ → ℕ
line_end buf e zero = e
line_end buf e (suc n) =
    let more = line_end buf (e + 1) n in if get_or buf e 0 == newline then e else more

pub line_len : ℕ → Editor → ℕ
unfolding line_start line_end
line_len line s = line_end s.buf (line_start line s) (s.len - line_start line s) - line_start line s

-- The loop of `cursor_rc`: the line and its start.
pub scan_cursor : List ℕ → ℕ → ℕ → ℕ → ℕ → ℕ × ℕ
scan_cursor buf i l ls zero = (l, ls)
scan_cursor buf i l ls (suc n) =
    let next = scan_cursor buf (i + 1) (l + 1) (i + 1) n in
    let same = scan_cursor buf (i + 1) l ls n in if get_or buf i 0 == newline then next else same

-- The line and the column.
pub cursor_rc : Editor → ℕ × ℕ
unfolding scan_cursor
cursor_rc s = let (l, ls) = scan_cursor s.buf 0 0 0 s.cursor in (l, s.cursor - ls)

-- `for (i = ...; i > cursor; i--) buf[i] = buf[i - 1];`
pub shift_right : List ℕ → ℕ → ℕ → List ℕ
shift_right buf i zero = buf
shift_right buf i (suc n) = shift_right (set buf i (get_or buf (i - 1) 0)) (i - 1) n

-- `for (i = ...; i < len - 1; i++) buf[i] = buf[i + 1];`
pub shift_left : List ℕ → ℕ → ℕ → List ℕ
shift_left buf i zero = buf
shift_left buf i (suc n) = shift_left (set buf i (get_or buf (i + 1) 0)) (i + 1) n

pub insert_ch : ℕ → Editor → Editor
unfolding shift_right
insert_ch c s = if leb (edit_max - 1) s.len then s else record s {
  buf = set (shift_right s.buf s.len (s.len - s.cursor)) s.cursor c;
  cursor = s.cursor + 1;
  len = s.len + 1;
  modified = true;
}

pub backspace : Editor → Editor
unfolding shift_left
backspace s = if s.cursor == 0 then s else record s {
  buf = shift_left s.buf (s.cursor - 1) (s.len - 1 - (s.cursor - 1));
  cursor = s.cursor - 1;
  len = s.len - 1;
  modified = true;
}

pub delete_ch : Editor → Editor
unfolding shift_left
delete_ch s = if leb s.len s.cursor then s else record s {
  buf = shift_left s.buf s.cursor (s.len - 1 - s.cursor);
  len = s.len - 1;
  modified = true;
}

pub goto_line : ℕ → Editor → Editor
unfolding total_lines line_len line_start
goto_line line s =
    let line' = if ltb (total_lines s - 1) line then total_lines s - 1 else line in
    let col = if ltb s.goal_col (line_len line' s) then s.goal_col else line_len line' s in
    record s { cursor = line_start line' s + col }
