-- ===== src/Fat/Path/Tests.antt =====
-- A run of `fs_read_path` of fs/fat12.c on a root with one entry.
use pumpkin_os.Prelude.{ℕ, List, [], ◌∷◌}
use pumpkin_os.Fat.Memory.{in_memory, volume}
use pumpkin_os.Fat.Path.{fs_read_path}
use pumpkin_os.Fat.Path.Restore.{Leaves, fs_read_path-Leaves}

abbrev path : List ℕ
path = b'/' ∷ b'A' ∷ b'/' ∷ b'B' ∷ []

fs_read_path-run : Leaves volume (fs_read_path in_memory 4 path 100 volume)
fs_read_path-run = fs_read_path-Leaves in_memory 4 path 100 volume
