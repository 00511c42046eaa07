-- ===== src/Pmm/Tests.antt =====
-- Runs of mm/pmm.c on a small machine: 640 KiB of low memory and 64 KiB above 1 MiB.
use pumpkin_os.Prelude.{◌*◌, ◌≡◌, ◌≢◌, refl, arith, List, [], ◌∷◌}
use pumpkin_os.Pmm.{E820Entry, Pmm, pmm_init, pmm_alloc_frame, pmm_free_frame, pmm_reserve}
use pumpkin_os.Pmm.{pmm_free_frames}
use pumpkin_os.Pmm.Bitmap.{IsValid}
use pumpkin_os.Pmm.Grants.{Grants, pmm_alloc_frame-Grants}
use pumpkin_os.Pmm.Exclusive.{here, next, alloc, free, alloc_exclusive}

abbrev small_map : List E820Entry
small_map =
    record { base = 0; length = 0xA0000; type = 1; attr = 1 }
    ∷ record { base = 0xF0000; length = 0x10000; type = 2; attr = 1 }
    ∷ record { base = 0x100000; length = 0x10000; type = 1; attr = 1 }
    ∷ []

-- Two words: frames 0 and 2 are used, and there are 40 of them.
abbrev two_words : Pmm
two_words = record {
  bitmap = 5 ∷ 0 ∷ [];
  bitmap_addr = 0x100000;
  total_frames = 40;
  used_frames = 2;
}

two_words-IsValid : IsValid two_words
two_words-IsValid = record { covers = omega arith; bounded = omega arith; counted = refl }

start_counts : (pmm_init small_map).total_frames ≡ 272
unfolding pmm_init
start_counts = refl

start_free : pmm_free_frames (pmm_init small_map) ≡ 15
unfolding pmm_init pmm_free_frames
start_free = refl

first_alloc : (pmm_alloc_frame (pmm_init small_map)).0 ≡ 257 * 4096
unfolding pmm_init pmm_alloc_frame
first_alloc = refl

reserve_two : (pmm_reserve 0x1000 0x1001 two_words).bitmap ≡ 7 ∷ 0 ∷ []
unfolding pmm_reserve
reserve_two = refl

pmm_alloc_frame-Grants_example : Grants two_words (pmm_alloc_frame two_words)
pmm_alloc_frame-Grants_example = pmm_alloc_frame-Grants two_words two_words-IsValid

-- Frame 1 is handed out; another allocation and a free of frame 2 follow.
abbrev later : Pmm
later = pmm_free_frame 0x2000 (pmm_alloc_frame (pmm_alloc_frame two_words).1).1

alloc_exclusive_example : (pmm_alloc_frame later).0 ≢ 1 * 4096
unfolding pmm_alloc_frame
alloc_exclusive_example = alloc_exclusive two_words later 1 two_words-IsValid (omega arith) refl (
    next (next here (alloc (pmm_alloc_frame two_words).1))
      (free (pmm_alloc_frame (pmm_alloc_frame two_words).1).1 0x2000 (omega arith)))
