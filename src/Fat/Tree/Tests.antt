-- ===== src/Fat/Tree/Tests.antt =====
-- Runs of `fs_cd` of fs/fat12.c on a root without directories.
use pumpkin_os.Prelude.{ℕ, List, [], ◌∷◌}
use pumpkin_os.Fat.Memory.{in_memory, volume}
use pumpkin_os.Fat.Tree.{fs_cd}
use pumpkin_os.Fat.Tree.Cd.{Moves, fs_cd-Moves}

abbrev path : List ℕ
path = b'/' ∷ b'A' ∷ []

fs_cd-run : Moves in_memory 4 volume (fs_cd in_memory 4 path volume)
fs_cd-run = fs_cd-Moves in_memory 4 path volume
