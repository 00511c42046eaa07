-- ===== src/Paging/Tests.antt =====
-- The theorems about mm/paging.c at concrete inputs.
use pumpkin_os.Prelude.{◌*◌, ltb, ◌<◌, if◌then◌else◌}
use pumpkin_os.Prelude.{ℕ, ◌+◌, ◌≡◌, ◌≢◌, refl, sym, ◌∙◌, arith, true, false}
use pumpkin_os.Paging.{Paging, Frames, paging_map, paging_get_phys}
use pumpkin_os.Paging.Entries.{zero-is_present}
use pumpkin_os.Paging.Valid.{IsValid}
use pumpkin_os.Paging.Grow.{IsFresh}
use pumpkin_os.Paging.Translate.{Outcome, paging_map-Outcome}

-- Frames one after the other.
abbrev row : Frames ℕ
row = record { alloc_frame = λ n. (n, n + 4096); total_frames = λ n. 16 }

abbrev blank : Paging ℕ
blank = record {
  page_directory = 0x1000;
  enabled = true;
  words = λ a. 0;
  cr3 = 0;
  paging_bit = true;
  frames = 0x2000;
}

false≢true : false ≢ true
false≢true e = ground (arith, e)

blank-IsValid : IsValid (λ a. 0) 0x1000
blank-IsValid = record {
  aligned = refl;
  apart_directory = λ i h p. absurd (false≢true (sym zero-is_present ∙ p));
  apart_tables = λ i j h g p q e. absurd (false≢true (sym zero-is_present ∙ p));
}

blank-IsFresh : IsFresh (λ a. 0) 0x1000 0x2000
blank-IsFresh = record {
  whole = refl;
  in_range = omega arith;
  not_directory = λ e. omega arith;
  not_table = λ i h p. absurd (false≢true (sym zero-is_present ∙ p));
}

paging_map-Outcome_example :
    Outcome row 0xC000_0000 0x5000 blank (paging_map row 0xC000_0000 0x5000 3 blank)
paging_map-Outcome_example =
    paging_map-Outcome row 0xC000_0000 0x5000 3 blank (omega arith) blank-IsValid
      (λ n. blank-IsFresh)

mapped : paging_get_phys 0xC000_0123 (paging_map row 0xC000_0000 0x5000 3 blank).1 ≡ 0x5123
unfolding paging_map paging_get_phys
mapped = refl

-- Frames in order, from 0x2000 on, of which 16 are left after the first.
abbrev few : Frames ℕ
few = record {
  alloc_frame = λ n. if ltb n 16 then ((n + 2) * 4096, n + 1) else (0, n);
  total_frames = λ n. 16;
}

abbrev Taken : ℕ → ℕ → Type 0
Taken n x = x < (n + 2) * 4096
