-- ===== src/Editor/Lines.antt =====
-- Lines and the cursor in shell/editor.c.
use pumpkin_os.Prelude.{ℕ, zero, suc, ◌+◌, ◌-◌, ◌≤◌, ◌<◌, ◌≡◌, ◌⊎◌, inl, inr, refl, arith, sym}
use pumpkin_os.Prelude.{
  List, length, get_or, true, false, ◌==◌, ltb, if◌then◌else◌, Bool-cases, ≢→==,
}
use pumpkin_os.Editor.{
  newline, Editor, find_line, line_start, line_end, line_len, scan_cursor, cursor_rc,
}
use pumpkin_os.Editor.{total_lines, goto_line}

-- A scan for the cursor that ends on line `r` at start `rs`, from line `l` with start `ls` at `i`: it
-- is still on the line, or `r` is later and its start is what the scan for that line finds.
abbrev Finds : List ℕ → ℕ → ℕ → ℕ → ℕ → ℕ → ℕ → Type 0
Finds buf m i l ls r rs = (r ≡ l) × (rs ≡ ls) ⊎ (l < r) × (find_line buf r i l m ≡ rs)

Finds-newline :
    (buf : List ℕ) (m i l ls r rs : ℕ)
    → (get_or buf i 0 == newline) ≡ true
    → Finds buf m (i + 1) (l + 1) (i + 1) r rs
    → Finds buf (suc m) i l ls r rs
unfolding find_line
Finds-newline buf m i l ls r rs e (inl (a, b)) =
    let here : (l + 1 == r) ≡ true = ground (arith, a) in inr (omega arith, rw (e, here) (sym b))
Finds-newline buf m i l ls r rs e (inr (a, b)) =
    let later : (l + 1 == r) ≡ false = ≢→== _ _ (omega arith) in inr (omega arith, rw (e, later) b)

Finds-same :
    (buf : List ℕ) (m i l ls r rs : ℕ)
    → (get_or buf i 0 == newline) ≡ false
    → Finds buf m (i + 1) l ls r rs
    → Finds buf (suc m) i l ls r rs
unfolding find_line
Finds-same buf m i l ls r rs e (inl p) = inl p
Finds-same buf m i l ls r rs e (inr (a, b)) = inr (a, rw e b)

Finds-scan :
    (buf : List ℕ) (n m i l ls : ℕ)
    → n ≤ m
    → Finds buf m i l ls (scan_cursor buf i l ls n).0 (scan_cursor buf i l ls n).1
unfolding scan_cursor
Finds-scan buf zero m i l ls h = inl (refl, refl)
Finds-scan buf (suc n) zero i l ls h = absurd (omega arith)
Finds-scan buf (suc n) (suc m) i l ls h = elim (Bool-cases (get_or buf i 0 == newline)) [
  | inl e ↦
      rw e (
        Finds-newline buf m i l ls _ _ e (Finds-scan buf n m (i + 1) (l + 1) (i + 1) (omega arith)))
  | inr e ↦ rw e (Finds-same buf m i l ls _ _ e (Finds-scan buf n m (i + 1) l ls (omega arith)))
]

-- The start that the scan finds lies no further than it went.
scan-le : (buf : List ℕ) (n i l ls : ℕ) → ls ≤ i → (scan_cursor buf i l ls n).1 ≤ i + n
unfolding scan_cursor
scan-le buf zero i l ls h = omega arith
scan-le buf (suc n) i l ls h =
    let next = scan-le buf n (i + 1) (l + 1) (i + 1) (omega arith) in
    let same = scan-le buf n (i + 1) l ls (omega arith) in
    elim (Bool-cases (get_or buf i 0 == newline)) [
      | inl e ↦ rw e (omega arith)
      | inr e ↦ rw e (omega arith)
    ]

line_start-found : (s : Editor) (r rs : ℕ) → Finds s.buf s.len 0 0 0 r rs → line_start r s ≡ rs
unfolding line_start
line_start-found s r rs (inl (a, b)) = rw (a, b) refl
line_start-found s r rs (inr (a, b)) = rw (≢→== r 0 (omega arith)) b

-- With the cursor inside the text, the line and the column of `cursor_rc` lead back to the cursor:
-- it stands that many characters behind the start that `line_start` finds for the line.
pub line_start-cursor_rc :
    (s : Editor) → s.cursor ≤ s.len → line_start (cursor_rc s).0 s + (cursor_rc s).1 ≡ s.cursor
unfolding cursor_rc
line_start-cursor_rc s h =
    let found =
      line_start-found s (scan_cursor s.buf 0 0 0 s.cursor).0 (scan_cursor s.buf 0 0 0 s.cursor).1
        (Finds-scan s.buf s.cursor s.len 0 0 0 h) in
    omega (arith, found, scan-le s.buf s.cursor 0 0 0 (omega arith))

find_line-le : (buf : List ℕ) (r n i l : ℕ) → find_line buf r i l n ≤ i + n
unfolding find_line
find_line-le buf r zero i l = omega arith
find_line-le buf r (suc n) i l =
    let next = find_line-le buf r n (i + 1) (l + 1) in
    let same = find_line-le buf r n (i + 1) l in ground arith

pub line_start-le : (line : ℕ) (s : Editor) → line_start line s ≤ s.len
unfolding line_start
line_start-le line s = let found = find_line-le s.buf line s.len 0 0 in ground arith

line_end-bounds : (buf : List ℕ) (e n : ℕ) → (e ≤ line_end buf e n) × (line_end buf e n ≤ e + n)
unfolding line_end
line_end-bounds buf e zero = (omega arith, omega arith)
line_end-bounds buf e (suc n) =
    let (lo, hi) = line_end-bounds buf (e + 1) n in (ground arith, ground arith)

pub line_len-le : (line : ℕ) (s : Editor) → line_start line s + line_len line s ≤ s.len
unfolding line_len
line_len-le line s =
    let start = line_start-le line s in
    let (lo, hi) = line_end-bounds s.buf (line_start line s) (s.len - line_start line s) in
    omega arith

-- `goto_line` leaves the cursor inside the text, on whatever line and with whatever goal column.
pub goto_line-le : (line : ℕ) (s : Editor) → (goto_line line s).cursor ≤ (goto_line line s).len
unfolding goto_line line_len
goto_line-le line s =
    let target = if ltb (total_lines s - 1) line then total_lines s - 1 else line in
    let start = line_start-le target s in
    let (lo, hi) = line_end-bounds s.buf (line_start target s) (s.len - line_start target s) in
    ground arith

pub goto_line-len : (line : ℕ) (s : Editor) → (goto_line line s).len ≡ s.len
unfolding goto_line
goto_line-len line s = refl

pub goto_line-size : (line : ℕ) (s : Editor) → length (goto_line line s).buf ≡ length s.buf
unfolding goto_line
goto_line-size line s = refl
