-- ===== src/Pmm/Start.antt =====
-- `pmm_init` of mm/pmm.c: which frames are free after start-up, for any E820 map.
use pumpkin_os.Prelude.{ℕ, ◌+◌, ◌/◌, ◌<◌, ◌≡◌}
use pumpkin_os.Prelude.{leb, ◌&&◌, not, Bool, if◌then◌else◌, ◌⊎◌}
use pumpkin_os.Prelude.{List}
use pumpkin_os.Pmm.{E820Entry, Pmm, cap_end}
use pumpkin_os.Pmm.{bitmap_bytes, no_memory}
use pumpkin_os.Pmm.Bitmap.{used, IsValid}
use pumpkin_os.Pmm.Room.{Holds, Some, IsTop}
use pumpkin_os.Pmm.Init.{in_usable, touches}

-- Free after start-up: wholly usable, above 1 MiB and clear of the bitmap.
abbrev pub free_at_start : List E820Entry → ℕ → ℕ → ℕ → Bool
free_at_start es addr total g =
    (in_usable es g && leb 256 g) && not (touches addr (cap_end (addr + bitmap_bytes total)) g)

-- The state with `total` frames whose bitmap lies at `addr`, with room for it, and whose free frames
-- are those of `free_at_start`.
pub record SetUp (es : List E820Entry) (total : ℕ) (s : Pmm) : Type 0 where
  pub addr : ℕ
  pub room : Some (Holds addr (bitmap_bytes total)) es
  pub size : s.total_frames ≡ total
  pub frames : (g : ℕ) → g < total → used s g ≡ (if free_at_start es addr total g then 0 else 1)

-- There is no usable memory, or nowhere room for the bitmap.
abbrev pub NoRoom : List E820Entry → ℕ → Type 0
NoRoom es top = (top ≡ 0) ⊎ ((addr : ℕ) → Some (Holds addr (bitmap_bytes (top / 4096))) es → ⊥)

-- What `pmm_init` makes of a map: the frames up to the highest usable address are set up, or there
-- is no room and no frame.
pub record Started (es : List E820Entry) (s : Pmm) : Type 0 where
  pub top : ℕ
  pub is_top : IsTop es top
  pub valid : IsValid s
  pub outcome : SetUp es (top / 4096) s ⊎ (NoRoom es top × (s ≡ no_memory))
