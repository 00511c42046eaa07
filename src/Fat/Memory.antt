-- ===== src/Fat/Memory.antt =====
-- A disk in memory and a small volume on it, for the tests of the other modules.
use pumpkin_os.Prelude.{
  ℕ, ◌≡◌, refl, arith, true, List, [], ◌∷◌, ◌++◌, some, replicate, ◌==◌, if◌then◌else◌, ≢→==, sym,
}
use pumpkin_os.Fat.Table.{Cache}
use pumpkin_os.Fat.Table.Entries.{AllBytes-IsBytes}
use pumpkin_os.Fat.Volume.{Disk, Volume}
use pumpkin_os.Fat.Volume.Lba.{IsReliable, IsMounted}

abbrev pub Sectors : Type 0
Sectors = ℕ → List ℕ

abbrev pub in_memory : Disk Sectors
in_memory = record {
  read_sector = λ lba s. some (s lba);
  write_sector = λ lba b s. (true, λ i. if i == lba then b else s i);
}

pub in_memory-IsReliable : (size : ℕ) → IsReliable in_memory size
in_memory-IsReliable size = record {
  write_ok = λ lba b s h. refl;
  read_same = λ lba b s h k. let same : (lba == lba) ≡ true = ground arith in rw same refl;
  read_other = λ lba other b s ne. rw (≢→== other lba (λ e. ne (sym e))) refl;
}

-- One chain, 2 → 3, and two free clusters.
abbrev pub table : Cache
table = 0xF0 ∷ 0xFF ∷ 0xFF ∷ 0x03 ∷ 0xF0 ∷ 0xFF ∷ 0 ∷ 0 ∷ 0 ∷ []

-- A root directory of one entry, the file `A.TXT` in cluster 2.
abbrev pub root : List ℕ
root =
    b'A'
    ∷ (replicate 7 32
        ++ (b'T'
            ∷ b'X'
            ∷ b'T'
            ∷ 0x20
            ∷ (replicate 14 0 ++ (2 ∷ 0 ∷ 5 ∷ 0 ∷ 0 ∷ 0 ∷ replicate 480 0))))

abbrev pub volume : Volume Sectors
volume = record {
  sectors_per_cluster = 1;
  reserved_sectors = 1;
  num_fats = 1;
  sectors_per_fat = 1;
  root_start = 2;
  root_sectors = 1;
  data_start = 3;
  cluster_count = 4;
  fat_cache = table;
  mounted = true;
  cwd_cluster = 0;
  cwd_path = b'/' ∷ 0 ∷ replicate 126 0;
  disk = λ i. if i == 2 then root else replicate 512 0;
}

pub volume-IsMounted : IsMounted 8 volume
volume-IsMounted = record {
  some_sectors = omega arith;
  on_disk = omega arith;
  disk_fits = omega arith;
  table = record { bytes = AllBytes-IsBytes table (omega arith); covers = omega arith };
  few = omega arith;
}
