-- ===== src/Console/Scroll.antt =====
-- `vga_scroll` of drivers/console.c against a description of each cell.
use pumpkin_os.Prelude.{
  ℕ, zero, suc, ◌+◌, ◌-◌, ◌*◌, ◌≤◌, ◌≡◌, ◌∙◌, arith, ltb, leb, ◌&&◌, if◌then◌else◌,
}
use pumpkin_os.Prelude.{update, ap}
use pumpkin_os.Console.{Console, vga_cell, blank_from, copy_row, copy_rows, vga_scroll}

blank_from_lem :
    (b i n : ℕ) (mem : ℕ → ℕ) (j : ℕ)
    → blank_from b i n mem j ≡ (if leb i j && ltb j (i + n) then b else mem j)
unfolding blank_from
blank_from_lem b i zero mem j = ground arith
blank_from_lem b i (suc n) mem j = blank_from_lem b (i + 1) n (update i b mem) j ∙ ground arith

-- Row `r - 1` from column `c` on takes `n` cells of row `r`.
copy_row_lem :
    (r c n : ℕ) (mem : ℕ → ℕ) (j : ℕ)
    → 1 ≤ r
    → c + n ≤ 80
    → copy_row r c n mem j
      ≡ (if leb ((r - 1) * 80 + c) j && ltb j ((r - 1) * 80 + c + n) then mem (j + 80) else mem j)
unfolding copy_row
copy_row_lem r c zero mem j p h = ground arith
copy_row_lem r c (suc n) mem j p h =
    copy_row_lem r (c + 1) n (update ((r - 1) * 80 + c) (mem (r * 80 + c)) mem) j p (omega arith)
    ∙ moves (mem (r * 80 + c)) (ap mem)
  where
    moves :
        (v : ℕ)
        → (r * 80 + c ≡ j + 80 → v ≡ mem (j + 80))
        → (if leb ((r - 1) * 80 + (c + 1)) j && ltb j ((r - 1) * 80 + (c + 1) + n)
            then update ((r - 1) * 80 + c) v mem (j + 80)
            else update ((r - 1) * 80 + c) v mem j)
          ≡ (if leb ((r - 1) * 80 + c) j && ltb j ((r - 1) * 80 + c + suc n)
              then mem (j + 80)
              else mem j)
    moves v e = ground arith

copy_rows_lem :
    (r n : ℕ) (mem : ℕ → ℕ) (j : ℕ)
    → 1 ≤ r
    → copy_rows r n mem j
      ≡ (if leb ((r - 1) * 80) j && ltb j ((r - 1 + n) * 80) then mem (j + 80) else mem j)
unfolding copy_rows
copy_rows_lem r zero mem j p = ground arith
copy_rows_lem r (suc n) mem j p =
    copy_rows_lem (r + 1) n (copy_row r 0 80 mem) j (omega arith)
    ∙ ground (
      arith,
      copy_row_lem r 0 80 mem j p (omega arith),
      copy_row_lem r 0 80 mem (j + 80) p (omega arith),
    )

-- `vga_scroll` moves the cells of the lower 24 rows one row up, fills the last row with blanks of the
-- present colours, and leaves the memory behind the screen.
pub vga_scroll_lem :
    (s : Console) (i : ℕ)
    → (vga_scroll s).cells i ≡ (
        if ltb i 1920
        then s.cells (i + 80)
        else if ltb i 2000
        then vga_cell b' ' s.cur_attr
        else s.cells i)
unfolding vga_scroll
vga_scroll_lem s i =
    blank_from_lem (vga_cell b' ' s.cur_attr) 1920 80 (copy_rows 1 24 s.cells) i
    ∙ ground (arith, copy_rows_lem 1 24 s.cells i (omega arith))
