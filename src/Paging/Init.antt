-- ===== src/Paging/Init.antt =====
-- paging_init of mm/paging.c, over a supply of frames.
use pumpkin_os.Prelude.{ℕ, ◌*◌, ◌/◌, ◌^◌, ◌<◌, ◌≤◌, min, ◌≡◌, true, ◌⊎◌}
use pumpkin_os.Paging.{
  Paging, Frames, page_size, identity_cap, entry, is_present, zero_table, paging_get_phys,
}
use pumpkin_os.Paging.Valid.{IsValid, table_of}
use pumpkin_os.Paging.Owned.{IsSupply}

-- The states of the supply that calls for a frame lead to.
pub data Reaches {S : Type 0} (fr : Frames S) (s : S) : S → Type 0 where
  here : Reaches fr s s
  next : {t : S} → Reaches fr s t → Reaches fr s (fr.alloc_frame t).1

-- From `s` on the supply comes to a call that has no frame to give.
abbrev pub RunsDry : {S : Type 0} → Frames S → S → Type 0
RunsDry {S = S} fr s = (t : S) × Reaches fr s t × ((fr.alloc_frame t).0 ≡ 0)

-- The first address that is not in a page which `paging_init` maps.
abbrev pub top_page : {S : Type 0} → Frames S → Paging S → ℕ
top_page fr p =
    4096 * (min (fr.total_frames (fr.alloc_frame p.frames).1 * 2 ^ 12) identity_cap / page_size)

module _ {S : Type 0} (fr : Frames S) (owned : S → ℕ → Type 0) (supply : IsSupply fr owned)
    (origin : S) where
  -- The directory and its tables are frames handed out, an address below `limit` leads to itself,
  -- or nowhere if the supply ran dry, and an address from there on leads nowhere.
  pub record IsIdentity (limit : ℕ) (p : Paging S) : Type 0 where
    pub valid : IsValid p.words p.page_directory
    pub own_directory : owned p.frames p.page_directory
    pub own_tables :
        (i : ℕ)
        → i < 1024
        → is_present (entry p.words p.page_directory i) ≡ true
        → owned p.frames (table_of p.words p.page_directory i)
    pub reached : Reaches fr origin p.frames
    pub itself :
        (v : ℕ)
        → v < 2 ^ 32
        → v < limit
        → (paging_get_phys v p ≡ v) ⊎ ((paging_get_phys v p ≡ 0xFFFF_FFFF) × RunsDry fr origin)
    pub nowhere : (v : ℕ) → v < 2 ^ 32 → limit ≤ v → paging_get_phys v p ≡ 0xFFFF_FFFF

  -- The state of `paging_init` before its loop.
  abbrev start : Paging S → Paging S
  start p =
      let q = (fr.alloc_frame p.frames).0 in
      record p {
        page_directory = q;
        frames = (fr.alloc_frame p.frames).1;
        words = zero_table q p.words;
      }
