-- ===== src/Fat/Dir/Tests.antt =====
-- Runs of the directory functions of fs/fat12.c on a root with one entry.
use pumpkin_os.Prelude.{ℕ, ◌≡◌, refl, List, [], ◌∷◌, ◌++◌, some, replicate}
use pumpkin_os.Fat.Memory.{in_memory, root, volume}
use pumpkin_os.Fat.Volume.{dir_sector_lba}
use pumpkin_os.Fat.Dir.{Slot, dir_find, find_body, same_bytes, dir_walk, walk_sector}

abbrev name : List ℕ
name = b'A' ∷ (replicate 7 32 ++ (b'T' ∷ b'X' ∷ b'T' ∷ []))

abbrev slot : Slot
slot = record { lba = 2; sec = root; off = 0 }

find_slot : dir_find in_memory 4 0 name volume ≡ some (some slot)
unfolding dir_find dir_walk walk_sector find_body same_bytes dir_sector_lba
find_slot = refl
