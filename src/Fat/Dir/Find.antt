-- ===== src/Fat/Dir/Find.antt =====
-- What `dir_find` of fs/fat12.c finds.
use pumpkin_os.Prelude.{ℕ, ◌≡◌, ◌≢◌, true, false}
use pumpkin_os.Prelude.{Option, none, some, List}
use pumpkin_os.Fat.Volume.{Disk, Volume}
use pumpkin_os.Fat.Dir.{Slot, ent, entry_bytes, is_skipped, same_bytes}
use pumpkin_os.Fat.Dir.Walk.{IsOnDisk}

-- An entry in use with the name, where the disk holds it.
pub record IsEntry {S : Type 0} (dk : Disk S) (s : S) (name83 : List ℕ) (slot : Slot) : Type 0 where
  pub on_disk : IsOnDisk dk s slot
  pub in_use : ent slot 0 ≢ 0
  pub live : is_skipped slot ≡ false
  pub named : same_bytes 11 (entry_bytes slot) name83 ≡ true

module _ {S : Type 0} (dk : Disk S) where
  abbrev pub IsAnswer : S → List ℕ → Option Slot → Type 0
  IsAnswer s name83 none = Unit
  IsAnswer s name83 (some slot) = IsEntry dk s name83 slot
