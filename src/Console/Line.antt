-- ===== src/Console/Line.antt =====
-- `console_write` of drivers/console.c, of printable characters that stay on their line.
use pumpkin_os.Prelude.{
  ℕ, suc, ◌+◌, ◌-◌, ◌*◌, ◌≤◌, ◌<◌, ◌≡◌, refl, sym, ap, ◌∙◌, arith, ltb, leb, ◌&&◌, ◌==◌, ≢→==, ==→≡,
  ap₂, fun_ext,
}
use pumpkin_os.Prelude.{if◌then◌else◌, if_cases, update, subst, false}
use pumpkin_os.Prelude.{List, [], ◌∷◌, ◌++◌, length, get_or, append_assoc, append-nil}
use pumpkin_os.Console.{
  Console, vga_cell, position, vga_store, vga_default, vga_switch, wrap_line, scroll_full, vga_putc,
  vga_move_cursor, mirror, serial_putc, console_putc, console_write,
}

-- Characters that are not control characters.
abbrev pub Printable : List ℕ → Type 0
Printable [] = Unit
Printable (c ∷ cs) = (32 ≤ c) × Printable cs

-- Row `row` from column `col` on, with the characters in it.
abbrev pub with_text : ℕ → List ℕ → ℕ → (ℕ → ℕ) → ℕ → ℕ
with_text at cs attr cells i =
    if leb at i && ltb i (at + length cs) then vga_cell (get_or cs (i - at) 0) attr else cells i

-- The console after the characters were typed in it.
pub record Typed (cs : List ℕ) (s t : Console) : Type 0 where
  pub row : t.cur_row ≡ s.cur_row
  pub col : t.cur_col ≡ s.cur_col + length cs
  pub attr : t.cur_attr ≡ s.cur_attr
  pub serial : t.serial ≡ s.serial ++ cs
  pub cells : (i : ℕ) → t.cells i ≡ with_text (s.cur_row * 80 + s.cur_col) cs s.cur_attr s.cells i

vga_switch-default : (c : ℕ) (s : Console) → 32 ≤ c → vga_switch c s ≡ vga_default c s
unfolding vga_switch
vga_switch-default c s h =
    rw
      (
        ≢→== c 10 (λ e. omega arith),
        ≢→== c 13 (λ e. omega arith),
        ≢→== c 9 (λ e. omega arith),
        ≢→== c 8 (λ e. omega arith),
      )
      refl

mirror-default : (c : ℕ) (s : Console) → 32 ≤ c → mirror c s ≡ serial_putc c s
unfolding mirror
mirror-default c s h = rw (≢→== c 10 (λ e. omega arith), ≢→== c 8 (λ e. omega arith)) refl

lt→leb : (a b : ℕ) → b < a → leb a b ≡ false
lt→leb a b h = ground arith

wrap_line-stays : (s : Console) → s.cur_col < 80 → wrap_line s ≡ s
unfolding wrap_line
wrap_line-stays s h = rw (lt→leb 80 s.cur_col h) refl

scroll_full-stays : (s : Console) → s.cur_row < 25 → scroll_full s ≡ s
unfolding scroll_full
scroll_full-stays s h = rw (lt→leb 25 s.cur_row h) refl

get_or_self : (c i p : ℕ) (cs : List ℕ) → i ≡ p → get_or (c ∷ cs) (i - p) 0 ≡ c
get_or_self c i p cs e = ap (λ t. get_or (c ∷ cs) t 0) (zero_at e)
  where
    zero_at : i ≡ p → i - p ≡ 0
    zero_at e = omega arith

get_or_next :
    (c i p : ℕ) (cs : List ℕ) → p < i → get_or (c ∷ cs) (i - p) 0 ≡ get_or cs (i - (p + 1)) 0
get_or_next c i p cs h =
    let e : i - p ≡ suc (i - (p + 1)) = omega arith in ap (λ t. get_or (c ∷ cs) t 0) e

with_text-nil : (p attr : ℕ) (mem : ℕ → ℕ) (i : ℕ) → with_text p [] attr mem i ≡ mem i
with_text-nil p attr mem i = ground arith

with_text-one :
    (p c attr : ℕ) (mem : ℕ → ℕ) (i : ℕ)
    → update p (vga_cell c attr) mem i ≡ with_text p (c ∷ []) attr mem i
with_text-one p c attr mem i =
    ground (arith, λ (e : i ≡ p). ap (λ t. vga_cell t attr) (get_or_self c i p [] e))

with_text-cons :
    (p c attr : ℕ) (cs : List ℕ) (mem : ℕ → ℕ) (i : ℕ)
    → with_text (p + 1) cs attr (with_text p (c ∷ []) attr mem) i ≡ with_text p (c ∷ cs) attr mem i
with_text-cons p c attr cs mem i = ground (
  arith,
  λ (e : i ≡ p). ap (λ t. vga_cell t attr) (get_or_self c i p cs e),
  λ (e : i ≡ p). ap (λ t. vga_cell t attr) (get_or_self c i p [] e),
  λ (h : p < i). ap (λ t. vga_cell t attr) (get_or_next c i p cs h),
)

-- A printable character before the last column.
typed :
    (c : ℕ) (s : Console)
    → s.cur_row < 25
    → s.cur_col < 79
    → Typed (c ∷ []) s (vga_move_cursor (vga_default c (serial_putc c s)))
unfolding vga_move_cursor vga_default vga_store position serial_putc
typed c s r l = record {
  row = refl;
  col = omega arith;
  attr = refl;
  serial = refl;
  cells = λ i.
      ap (λ t. update t (vga_cell c s.cur_attr) s.cells i) (position_lem (serial_putc c s) r l)
      ∙ with_text-one (s.cur_row * 80 + s.cur_col) c s.cur_attr s.cells i;
}
  where
    position_lem :
        (s : Console) → s.cur_row < 25 → s.cur_col < 79 → position s ≡ s.cur_row * 80 + s.cur_col
    position_lem s r l = omega arith

console_putc-Typed :
    (c : ℕ) (s : Console)
    → 32 ≤ c
    → s.cur_row < 25
    → s.cur_col < 79
    → Typed (c ∷ []) s (console_putc c s)
unfolding console_putc vga_putc serial_putc vga_default vga_store
console_putc-Typed c s h r l = subst (Typed (c ∷ []) s) (sym same) (typed c s r l)
  where
    putc_same : (u : Console) → u.cur_row < 25 → u.cur_col < 79 → vga_putc c u ≡ vga_default c u
    putc_same u r l =
        ap (λ t. scroll_full (wrap_line t)) (vga_switch-default c u h)
        ∙ ap scroll_full (wrap_line-stays (vga_default c u) (omega arith))
        ∙ scroll_full-stays (vga_default c u) r

    same : console_putc c s ≡ vga_move_cursor (vga_default c (serial_putc c s))
    same =
        ap (λ t. vga_move_cursor (vga_putc c t)) (mirror-default c s h)
        ∙ ap vga_move_cursor (putc_same (serial_putc c s) r l)

Typed-cons :
    (c : ℕ) (cs : List ℕ) (s t u : Console) → Typed (c ∷ []) s t → Typed cs t u → Typed (c ∷ cs) s u
Typed-cons c cs s t u a b = record {
  row = b.row ∙ a.row;
  col = omega (arith, a.col, b.col);
  attr = b.attr ∙ a.attr;
  serial = b.serial ∙ ap (λ l. l ++ cs) a.serial ∙ append_assoc s.serial (c ∷ []) cs;
  cells = λ i.
      b.cells i
      ∙ ap₂ (λ p x. with_text p cs x t.cells i) at a.attr
      ∙ ap (λ m. with_text (s.cur_row * 80 + s.cur_col + 1) cs s.cur_attr m i) (fun_ext a.cells)
      ∙ with_text-cons (s.cur_row * 80 + s.cur_col) c s.cur_attr cs s.cells i;
}
  where
    at : t.cur_row * 80 + t.cur_col ≡ s.cur_row * 80 + s.cur_col + 1
    at = omega (arith, a.col, ap (λ r. r * 80) a.row)

-- Where the characters are printable and end before the last column of the cursor's line,
-- `console_write` puts them in the cells from the cursor on, in the present colours, and sends them
-- to the serial port in the same order; the cursor ends behind them, and no other cell changes.
pub console_write-Typed :
    (cs : List ℕ) (s : Console)
    → Printable cs
    → s.cur_row < 25
    → s.cur_col + length cs ≤ 79
    → Typed cs s (console_write cs s)
unfolding console_write
console_write-Typed [] s p r l = record {
  row = refl;
  col = omega arith;
  attr = refl;
  serial = sym (append-nil s.serial);
  cells = λ i. sym (with_text-nil (s.cur_row * 80 + s.cur_col) s.cur_attr s.cells i);
}
console_write-Typed (c ∷ cs) s (h, p) r l =
    let one = console_putc-Typed c s h r (omega arith) in
    let t = console_putc c s in
    let more = console_write-Typed cs t p (omega (arith, one.row)) (omega (arith, one.col)) in
    if_cases (Typed (c ∷ cs) s) (c == 0) s (console_write cs t)
      (λ e. absurd (omega (arith, ==→≡ _ _ e)))
      (λ e. Typed-cons c cs s t (console_write cs t) one more)
