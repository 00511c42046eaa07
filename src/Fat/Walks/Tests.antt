-- ===== src/Fat/Walks/Tests.antt =====
-- Runs of the walks of fs/fat12.c on a root with one entry.
use pumpkin_os.Prelude.{◌≡◌, refl, List, [], ◌∷◌, some, false}
use pumpkin_os.Fat.Memory.{in_memory, volume}
use pumpkin_os.Fat.Names.{format_name, copy_until_space}
use pumpkin_os.Fat.Volume.{dir_sector_lba}
use pumpkin_os.Fat.Dir.{dir_walk, walk_sector}
use pumpkin_os.Fat.Walks.{Dirent, fs_readdir, readdir_body}

abbrev listed : List Dirent
listed =
    record {
      name = b'A' ∷ b'.' ∷ b'T' ∷ b'X' ∷ b'T' ∷ [];
      is_directory = false;
      size = 5;
      cluster = 2;
    }
    ∷ []

list_root : fs_readdir in_memory 4 0 1 volume ≡ some listed
unfolding fs_readdir dir_walk walk_sector readdir_body dir_sector_lba format_name copy_until_space
list_root = refl
