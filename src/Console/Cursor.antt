-- ===== src/Console/Cursor.antt =====
-- drivers/console.c: the cursor stays on the screen and every write inside the 2000 cells.
use pumpkin_os.Prelude.{
  ℕ, zero, suc, ◌+◌, ◌-◌, ◌*◌, ◌/◌, ◌%◌, ◌^◌, ◌≤◌, ◌<◌, ◌≡◌, refl, ap, ◌∙◌, inl, inr, arith,
}
use pumpkin_os.Prelude.{bit_and, Bool-cases, leb, ◌==◌, leb→le, leb→lt}
use pumpkin_os.Prelude.{if_cases, update}
use pumpkin_os.Prelude.Bits.{bit_and_mask, bit_and_high}
use pumpkin_os.Console.{
  Console, vga_cell, blank_from, copy_row, copy_rows, vga_store, vga_backspace, vga_default,
  vga_switch, wrap_line, vga_scroll, scroll_full, vga_putc, vga_move_cursor, position, mirror,
  serial_putc, console_putc,
}

-- The cursor stands on one of the 2000 cells.
pub record OnScreen (s : Console) : Type 0 where
  pub row : s.cur_row < 25
  pub col : s.cur_col < 80

-- The memory behind the screen is the same in both states.
abbrev pub KeepsBehind : Console → Console → Type 0
KeepsBehind s t = (i : ℕ) → 2000 ≤ i → t.cells i ≡ s.cells i

-- The cursor between the `switch` and the wrap: the column may stand behind the line.
abbrev Near : Console → Type 0
Near s = (s.cur_row ≤ 25) × (s.cur_col ≤ 83) × (80 ≤ s.cur_col → s.cur_row ≤ 24)

blank_from-behind : (b i n : ℕ) (mem : ℕ → ℕ) (j : ℕ) → i + n ≤ j → blank_from b i n mem j ≡ mem j
unfolding blank_from
blank_from-behind b i zero mem j h = refl
blank_from-behind b i (suc n) mem j h =
    blank_from-behind b (i + 1) n (update i b mem) j (omega arith) ∙ ground arith

copy_row-behind :
    (r c n : ℕ) (mem : ℕ → ℕ) (j : ℕ) → (r - 1) * 80 + c + n ≤ j → copy_row r c n mem j ≡ mem j
unfolding copy_row
copy_row-behind r c zero mem j h = refl
copy_row-behind r c (suc n) mem j h = copy_row-behind r (c + 1) n _ j (omega arith) ∙ ground arith

copy_rows-behind :
    (r n : ℕ) (mem : ℕ → ℕ) (j : ℕ) → 1 ≤ r → (r - 1 + n) * 80 ≤ j → copy_rows r n mem j ≡ mem j
unfolding copy_rows
copy_rows-behind r zero mem j p h = refl
copy_rows-behind r (suc n) mem j p h =
    copy_rows-behind (r + 1) n _ j (omega arith) (omega arith)
    ∙ copy_row-behind r 0 80 mem j (omega arith)

vga_scroll-behind : (s : Console) → KeepsBehind s (vga_scroll s)
unfolding vga_scroll
vga_scroll-behind s i h =
    blank_from-behind (vga_cell b' ' s.cur_attr) 1920 80 (copy_rows 1 24 s.cells) i h
    ∙ copy_rows-behind 1 24 s.cells i (omega arith) (omega arith)

vga_store-behind :
    (c : ℕ) (s : Console) → s.cur_row < 25 → s.cur_col < 80 → KeepsBehind s (vga_store c s)
unfolding vga_store position
vga_store-behind c s r l i h = ground arith

-- A column rounded down to a multiple of four.
tab_lem : (x : ℕ) → x < 80 → bit_and ((x + 4) % 2 ^ 32) (2 ^ 32 - 1 - 3) ≡ (x + 4) / 4 * 4
tab_lem x h =
    let e : (x + 4) % 2 ^ 32 ≡ x + 4 = omega arith in
    let m = bit_and_mask 30 ((x + 4) / 4) in
    rw e (bit_and_high 2 (x + 4) (2 ^ 30 - 1) ∙ ap (λ t. t * 4) (m ∙ omega arith))

vga_backspace-Near :
    (s : Console) → OnScreen s → Near (vga_backspace s) × KeepsBehind s (vga_backspace s)
unfolding vga_backspace vga_store
vga_backspace-Near s on = elim (Bool-cases (s.cur_col == 0)) [
  | inl e ↦
      rw e ((omega (arith, on.row), omega (arith, on.col), λ h. omega (arith, on.row)), λ i h. refl)
  | inr e ↦
      let t : Console = record s { cur_col = s.cur_col - 1 } in
      rw e (
        (omega (arith, on.row), omega (arith, on.col), λ h. omega (arith, on.row)),
        vga_store-behind b' ' t on.row (omega (arith, on.col)),
      )
]

vga_switch-Near :
    (c : ℕ) (s : Console) → OnScreen s → Near (vga_switch c s) × KeepsBehind s (vga_switch c s)
unfolding vga_switch vga_default vga_store
vga_switch-Near c s on =
    let r = on.row in
    let l = on.col in
    elim (Bool-cases (c == 10)) [
      | inl a ↦ rw a ((omega arith, omega arith, λ h. omega arith), λ i h. refl)
      | inr a ↦ elim (Bool-cases (c == 13)) [
        | inl b ↦ rw (a, b) ((omega arith, omega arith, λ h. omega arith), λ i h. refl)
        | inr b ↦ elim (Bool-cases (c == 9)) [
          | inl d ↦
              let t = tab_lem s.cur_col l in
              rw (a, b, d, t) ((omega arith, omega arith, λ h. omega arith), λ i h. refl)
          | inr d ↦ elim (Bool-cases (c == 8)) [
            | inl e ↦ rw (a, b, d, e) (vga_backspace-Near s on)
            | inr e ↦
                rw (a, b, d, e)
                  ((omega arith, omega arith, λ h. omega arith), vga_store-behind c s r l)
          ]
        ]
      ]
    ]

wrap_line-Near :
    (s : Console)
    → Near s
    → ((wrap_line s).cur_row ≤ 25) × ((wrap_line s).cur_col < 80) × KeepsBehind s (wrap_line s)
unfolding wrap_line
wrap_line-Near s (r, l, k) = elim (Bool-cases (leb 80 s.cur_col)) [
  | inl e ↦ rw e (omega (arith, k (leb→le _ _ e)), omega arith, λ i h. refl)
  | inr e ↦ rw e (r, leb→lt _ _ e, λ i h. refl)
]

vga_scroll-OnScreen : (s : Console) → s.cur_col < 80 → OnScreen (vga_scroll s)
unfolding vga_scroll
vga_scroll-OnScreen s l = record { row = omega arith; col = l }

scroll_full-OnScreen :
    (s : Console)
    → s.cur_row ≤ 25
    → s.cur_col < 80
    → OnScreen (scroll_full s) × KeepsBehind s (scroll_full s)
unfolding scroll_full
scroll_full-OnScreen s r l =
    if_cases (λ t. OnScreen t × KeepsBehind s t) (leb 25 s.cur_row) (vga_scroll s) s
      (λ e. (vga_scroll-OnScreen s l, vga_scroll-behind s))
      (λ e. (record { row = leb→lt _ _ e; col = l }, λ i h. refl))

vga_putc-OnScreen :
    (c : ℕ) (s : Console) → OnScreen s → OnScreen (vga_putc c s) × KeepsBehind s (vga_putc c s)
unfolding vga_putc
vga_putc-OnScreen c s on =
    let (near, keep) = vga_switch-Near c s on in
    let (r, l, keep') = wrap_line-Near (vga_switch c s) near in
    let (on', keep'') = scroll_full-OnScreen (wrap_line (vga_switch c s)) r l in
    (on', λ i h. keep'' i h ∙ keep' i h ∙ keep i h)

-- The two registers of the hardware cursor hold the position of the cursor.
abbrev pub Blinks : Console → Type 0
Blinks s = s.crtc_high * 256 + s.crtc_low ≡ s.cur_row * 80 + s.cur_col

vga_move_cursor-Blinks : (s : Console) → OnScreen s → Blinks (vga_move_cursor s)
unfolding vga_move_cursor position
vga_move_cursor-Blinks s on = omega (
  arith,
  on.row,
  on.col,
  bit_and_mask 8 ((s.cur_row * 80 + s.cur_col) % 2 ^ 32 % 2 ^ 16),
  bit_and_mask 8 ((s.cur_row * 80 + s.cur_col) % 2 ^ 32 % 2 ^ 16 / 2 ^ 8),
)

moved :
    (s : Console) → OnScreen s → OnScreen (vga_move_cursor s) × KeepsBehind s (vga_move_cursor s)
unfolding vga_move_cursor
moved s on = (record { row = on.row; col = on.col }, λ i h. refl)

mirror-Same :
    (c : ℕ) (s : Console) → OnScreen s → OnScreen (mirror c s) × KeepsBehind s (mirror c s)
unfolding mirror serial_putc
mirror-Same c s on = elim (Bool-cases (c == 10)) [
  | inl a ↦ elim (Bool-cases (c == 8)) [
    | inl b ↦ rw (a, b) (record { row = on.row; col = on.col }, λ i h. refl)
    | inr b ↦ rw (a, b) (record { row = on.row; col = on.col }, λ i h. refl)
  ]
  | inr a ↦ elim (Bool-cases (c == 8)) [
    | inl b ↦ rw (a, b) (record { row = on.row; col = on.col }, λ i h. refl)
    | inr b ↦ rw (a, b) (record { row = on.row; col = on.col }, λ i h. refl)
  ]
]

-- Where the cursor is on the screen, `console_putc` of any character leaves it on the screen,
-- writes no memory behind the 2000 cells, and leaves the hardware cursor at the cursor's position.
pub console_putc-OnScreen :
    (c : ℕ) (s : Console)
    → OnScreen s
    → OnScreen (console_putc c s) × KeepsBehind s (console_putc c s) × Blinks (console_putc c s)
unfolding console_putc
console_putc-OnScreen c s on =
    let (on', keep) = mirror-Same c s on in
    let (on'', keep') = vga_putc-OnScreen c (mirror c s) on' in
    let (last, keep'') = moved (vga_putc c (mirror c s)) on'' in
    (
      last,
      λ i h. keep'' i h ∙ keep' i h ∙ keep i h,
      vga_move_cursor-Blinks (vga_putc c (mirror c s)) on'',
    )
