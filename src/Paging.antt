-- ===== src/Paging.antt =====
-- mm/paging.c: the two-level page tables, in the words of physical memory (every address that the
-- file writes is mapped to itself). The loads of CR3 and CR0 are fields of the state.
pub mod Entries
pub mod Valid
pub mod Grow
pub mod Translate
pub mod Owned
pub mod Init
mod Tests
use package.pumpkin_os.Prelude.{ℕ, zero, suc, ◌+◌, ◌*◌, ◌/◌, ◌%◌, ◌^◌, min, bit_and, bit_or}
use package.pumpkin_os.Prelude.{Bool, false, true, not, ltb, ◌==◌, if◌then◌else◌, update}

abbrev pub entries : ℕ
entries = 1024

abbrev pub page_size : ℕ
page_size = 4096

abbrev pub addr_mask : ℕ
addr_mask = 0xFFFF_F000

abbrev pub identity_cap : ℕ
identity_cap = 0x4000_0000

abbrev pub page_present : ℕ
page_present = 0x1

abbrev pub page_write : ℕ
page_write = 0x2

abbrev pub page_user : ℕ
page_user = 0x4

-- `pmm_alloc_frame` and `pmm_total_frames` of mm/pmm.c, on their state.
pub record Frames (S : Type 0) : Type 0 where
  pub alloc_frame : S → ℕ × S
  pub total_frames : S → ℕ

-- The static variables, physical memory by word, the two control registers, and the state of
-- mm/pmm.c.
pub record Paging (S : Type 0) : Type 0 where
  pub page_directory : ℕ
  pub enabled : Bool
  pub words : ℕ → ℕ
  pub cr3 : ℕ
  pub paging_bit : Bool
  pub frames : S

-- `table[i]` of a table of words.
abbrev pub entry : (ℕ → ℕ) → ℕ → ℕ → ℕ
entry w table i = w (table + 4 * i)

-- `v & PAGE_PRESENT`, as a condition.
pub is_present : ℕ → Bool
is_present v = not (bit_and v page_present == 0)

-- `pdi` and `pti` of an address.
abbrev pub pdi : ℕ → ℕ
pdi virt = virt / 2 ^ 22

abbrev pub pti : ℕ → ℕ
pti virt = bit_and (virt / 2 ^ 12) 0x3FF

-- The loop of `zero_table` from `i` on, with `n` entries to go.
pub zero_from : ℕ → ℕ → ℕ → (ℕ → ℕ) → ℕ → ℕ
zero_from table i zero w = w
zero_from table i (suc n) w = zero_from table (i + 1) n (update (table + 4 * i) 0 w)

pub zero_table : ℕ → (ℕ → ℕ) → ℕ → ℕ
unfolding zero_from
zero_table table w = zero_from table 0 entries w

-- The words that `paging_map` writes.
pub directory_word : ℕ → ℕ → ℕ
directory_word pt_phys flags =
    bit_or (bit_or (bit_or pt_phys page_present) page_write) (bit_and flags page_user)

pub table_word : ℕ → ℕ → ℕ
table_word phys flags = bit_or (bit_or (bit_and phys addr_mask) (bit_and flags 0xFFF)) page_present

module _ {S : Type 0} where
  -- `if (enabled) load_cr3(page_directory)`
  pub flush : Paging S → Paging S
  flush p = if p.enabled then record p { cr3 = p.page_directory } else p

  -- The end of `paging_map`, with the page table found or made.
  pub set_entry : ℕ → ℕ → ℕ → Paging S → Paging S
  unfolding flush
  set_entry pt i v p = flush (record p { words = update (pt + 4 * i) v p.words })

  -- True for the result 0.
  pub paging_map : Frames S → ℕ → ℕ → ℕ → Paging S → Bool × Paging S
  unfolding is_present zero_table directory_word table_word set_entry
  paging_map fr virt phys flags p =
      let slot = p.page_directory + 4 * pdi virt in
      let (pt_phys, frames) = fr.alloc_frame p.frames in
      let made = record p {
        frames = frames;
        words = update slot (directory_word pt_phys flags) (zero_table pt_phys p.words);
      } in
      if is_present (p.words slot)
      then (true, set_entry (bit_and (p.words slot) addr_mask) (pti virt) (table_word phys flags) p)
      else if pt_phys == 0
      then (false, record p { frames = frames })
      else (true, set_entry pt_phys (pti virt) (table_word phys flags) made)

  pub paging_unmap : ℕ → Paging S → Paging S
  unfolding is_present set_entry
  paging_unmap virt p =
      let slot = p.page_directory + 4 * pdi virt in
      if is_present (p.words slot)
      then set_entry (bit_and (p.words slot) addr_mask) (pti virt) 0 p
      else p

  pub paging_get_phys : ℕ → Paging S → ℕ
  unfolding is_present
  paging_get_phys virt p =
      let slot = p.page_directory + 4 * pdi virt in
      let pt = bit_and (p.words slot) addr_mask in
      if is_present (p.words slot)
      then if is_present (entry p.words pt (pti virt))
        then bit_or (bit_and (entry p.words pt (pti virt)) addr_mask) (bit_and virt 0xFFF)
        else 0xFFFF_FFFF
      else 0xFFFF_FFFF

  -- The loop of `paging_init` from `addr` on, with `n` pages to go; its results are not looked at.
  pub identity : Frames S → ℕ → ℕ → Paging S → Paging S
  unfolding paging_map
  identity fr addr zero p = p
  identity fr addr (suc n) p =
      identity fr (addr + page_size) n
        (paging_map fr addr addr (bit_or page_present page_write) p).1

  pub paging_init : Frames S → Paging S → Paging S
  unfolding zero_table identity
  paging_init fr p =
      let (pd_phys, frames) = fr.alloc_frame p.frames in
      let start = record p {
        page_directory = pd_phys;
        frames = frames;
        words = zero_table pd_phys p.words;
      } in
      let top = min (fr.total_frames frames * 2 ^ 12) identity_cap in
      record (identity fr 0 (top / page_size) start) {
        cr3 = pd_phys;
        paging_bit = true;
        enabled = true;
      }
