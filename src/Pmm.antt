-- ===== src/Pmm.antt =====
-- mm/pmm.c: the bitmap allocator over 4 KiB physical frames, and its set-up from the E820 map.
-- The bitmap is the array of 32-bit words that `bitmap` points to; the map is the list of entries
-- that the boot sector left in memory. Sums of `uint64_t` wrap at 2 ^ 64.
pub mod Bitmap
pub mod Count
pub mod Range
pub mod Alloc
pub mod Init
pub mod Room
pub mod Start
pub mod Exclusive
pub mod Grants
mod Tests
use package.pumpkin_os.Prelude.{ℕ, zero, suc, ◌+◌, ◌-◌, ◌*◌, ◌/◌, ◌%◌, ◌^◌, bit_and, bit_or}
use package.pumpkin_os.Prelude.{Bool, false, true, not, ◌&&◌, ltb, leb, ◌==◌, if◌then◌else◌}
use package.pumpkin_os.Prelude.{Option, none, some, List, [], ◌∷◌, get_or, set, replicate}

-- `struct e820_entry`; the fields are `uint64_t`, `uint64_t`, `uint32_t` and `uint32_t`.
pub record E820Entry : Type 0 where
  pub base : ℕ
  pub length : ℕ
  pub type : ℕ
  pub attr : ℕ

abbrev pub e820_usable : ℕ
e820_usable = 1

abbrev pub four_gib : ℕ
four_gib = 0x1_0000_0000

-- The file's static variables. `bitmap_addr` is where the words of `bitmap` lie.
pub record Pmm : Type 0 where
  pub bitmap : List ℕ
  pub bitmap_addr : ℕ
  pub total_frames : ℕ
  pub used_frames : ℕ

abbrev pub word : Pmm → ℕ → ℕ
word s i = get_or s.bitmap i 0

pub frame_mark_used : ℕ → Pmm → Pmm
frame_mark_used f s =
    if leb s.total_frames f
    then s
    else if bit_and (word s (f / 2 ^ 5)) (2 ^ bit_and f 31) == 0
    then record s {
      bitmap = set s.bitmap (f / 2 ^ 5) (bit_or (word s (f / 2 ^ 5)) (2 ^ bit_and f 31));
      used_frames = (s.used_frames + 1) % 2 ^ 32;
    }
    else s

pub frame_mark_free : ℕ → Pmm → Pmm
frame_mark_free f s =
    if leb s.total_frames f
    then s
    else if bit_and (word s (f / 2 ^ 5)) (2 ^ bit_and f 31) == 0
    then s
    else record s {
      bitmap =
          set s.bitmap (f / 2 ^ 5) (bit_and (word s (f / 2 ^ 5)) (2 ^ 32 - 1 - 2 ^ bit_and f 31));
      used_frames = (s.used_frames + 2 ^ 32 - 1) % 2 ^ 32;
    }

-- `for (f = f0; f < f0 + n; f++) mark(f);`
pub mark_frames : (ℕ → Pmm → Pmm) → ℕ → ℕ → Pmm → Pmm
mark_frames mark zero f s = s
mark_frames mark (suc n) f s = mark_frames mark n (f + 1) (mark f s)

abbrev pub cap_end : ℕ → ℕ
cap_end end = if ltb four_gib end then four_gib else end

pub reserve_range : ℕ → ℕ → Pmm → Pmm
unfolding mark_frames frame_mark_used
reserve_range start end s =
    if leb (cap_end end) start
    then s
    else let f0 = start / 2 ^ 12 % 2 ^ 32 in
      let f1 = (cap_end end + 0xFFF) / 2 ^ 12 % 2 ^ 32 in mark_frames frame_mark_used (f1 - f0) f0 s

pub free_range : ℕ → ℕ → Pmm → Pmm
unfolding mark_frames frame_mark_free
free_range start end s =
    if leb (cap_end end) start
    then s
    else let f0 = (start + 0xFFF) / 2 ^ 12 % 2 ^ 32 in
      let f1 = cap_end end / 2 ^ 12 % 2 ^ 32 in mark_frames frame_mark_free (f1 - f0) f0 s

-- The two `continue`s that begin each loop over the map.
pub is_skipped : E820Entry → Bool
is_skipped e = if e.type == e820_usable then not (e.base / 2 ^ 32 == 0) else true

abbrev pub entry_end : E820Entry → ℕ
entry_end e = (e.base + e.length) % 2 ^ 64

-- The body of pass 1: `max_addr` after one entry.
pub raise_max : ℕ → E820Entry → ℕ
unfolding is_skipped
raise_max max_addr e =
    if is_skipped e
    then max_addr
    else if ltb max_addr (cap_end (entry_end e))
    then cap_end (entry_end e)
    else max_addr

-- Pass 1, from an entry on.
pub highest_address : List E820Entry → ℕ → ℕ
unfolding raise_max
highest_address [] max_addr = max_addr
highest_address (e ∷ es) max_addr = highest_address es (raise_max max_addr e)

-- Where the bitmap could lie inside an entry: `base` kept above 1 MiB.
abbrev pub spot_base : E820Entry → ℕ
spot_base e = if ltb e.base 0x100000 then 0x100000 else e.base

pub fits_bitmap : ℕ → E820Entry → Bool
unfolding is_skipped
fits_bitmap bytes e =
    if is_skipped e
    then false
    else if leb (cap_end (entry_end e)) (spot_base e)
    then false
    else leb bytes (cap_end (entry_end e) - spot_base e)

-- Pass 2: the first entry with room, or 0.
pub find_bitmap_addr : ℕ → List E820Entry → ℕ
unfolding fits_bitmap
find_bitmap_addr bytes [] = 0
find_bitmap_addr bytes (e ∷ es) =
    if fits_bitmap bytes e then spot_base e % 2 ^ 32 else find_bitmap_addr bytes es

pub free_entry : E820Entry → Pmm → Pmm
unfolding is_skipped free_range
free_entry e s = if is_skipped e then s else free_range e.base (entry_end e) s

pub free_usable : List E820Entry → Pmm → Pmm
unfolding free_entry
free_usable [] s = s
free_usable (e ∷ es) s = free_usable es (free_entry e s)

abbrev pub bitmap_bytes : ℕ → ℕ
bitmap_bytes total = bit_and ((total + 7) / 2 ^ 3 + 3) 0xFFFF_FFFC

abbrev pub no_memory : Pmm
no_memory = record { bitmap = []; bitmap_addr = 0; total_frames = 0; used_frames = 0 }

-- "Start with everything used".
abbrev pub all_used : ℕ → ℕ → Pmm
all_used addr total = record {
  bitmap = replicate (bitmap_bytes total / 2 ^ 2) 0xFFFF_FFFF;
  bitmap_addr = addr;
  total_frames = total;
  used_frames = total;
}

-- From `bitmap = (uint32_t *)bitmap_addr` on.
pub fill_bitmap : ℕ → ℕ → List E820Entry → Pmm
unfolding free_usable reserve_range
fill_bitmap addr total es =
    reserve_range addr (addr + bitmap_bytes total)
      (reserve_range 0 0x100000 (free_usable es (all_used addr total)))

pub pmm_init : List E820Entry → Pmm
unfolding highest_address find_bitmap_addr fill_bitmap
pmm_init es =
    let max_addr = highest_address es 0 in
    if max_addr == 0
    then no_memory
    else let total = max_addr / 2 ^ 12 % 2 ^ 32 in
      let addr = find_bitmap_addr (bitmap_bytes total) es in
      if addr == 0 then no_memory else fill_bitmap addr total es

-- The inner loop of `pmm_alloc_frame` on word `i`, with `left` bits to go: the frame it takes.
pub scan_bits : Pmm → ℕ → ℕ → ℕ → Option ℕ
scan_bits s i zero b = none
scan_bits s i (suc left) b =
    let f = (i * 2 ^ 5 + b) % 2 ^ 32 in
    let rest = scan_bits s i left (b + 1) in
    if leb s.total_frames f then none else if bit_and (word s i) (2 ^ b) == 0 then some f else rest

pub scan_words : Pmm → ℕ → ℕ → Option ℕ
unfolding scan_bits
scan_words s zero i = none
scan_words s (suc left) i =
    let rest = scan_words s left (i + 1) in
    if word s i == 0xFFFF_FFFF
    then rest
    else elim (scan_bits s i 32 0) [ some f ↦ some f | none ↦ rest ]

-- The physical address, 0 for none, and the new state.
pub pmm_alloc_frame : Pmm → ℕ × Pmm
unfolding scan_words frame_mark_used
pmm_alloc_frame s =
    if s.total_frames == 0 then (0, s) else elim (scan_words s ((s.total_frames + 31) / 2 ^ 5) 0) [
      | none ↦ (0, s)
      | some f ↦ (f * 2 ^ 12 % 2 ^ 32, frame_mark_used f s)
    ]

pub pmm_free_frame : ℕ → Pmm → Pmm
unfolding frame_mark_free
pmm_free_frame phys_addr s = frame_mark_free (phys_addr / 2 ^ 12) s

pub pmm_reserve : ℕ → ℕ → Pmm → Pmm
unfolding reserve_range
pmm_reserve phys bytes s = reserve_range phys (phys + bytes) s

pub pmm_free_frames : Pmm → ℕ
pmm_free_frames s = (s.total_frames + 2 ^ 32 - s.used_frames) % 2 ^ 32
