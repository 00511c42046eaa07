-- ===== src/Fat/Volume/Lba.antt =====
-- Where the clusters of a volume of fs/fat12.c lie on its disk, and what is asked of the disk.
use pumpkin_os.Prelude.{ℕ, ◌+◌, ◌-◌, ◌*◌, ◌%◌, ◌^◌, ◌≤◌, ◌<◌, ◌≡◌, ◌≢◌, arith, true}
use pumpkin_os.Prelude.{some, List, length, ◌⊎◌, inl, inr, dec_lt}
use pumpkin_os.Fat.Table.{eoc}
use pumpkin_os.Fat.Table.Alloc.{IsFat}
use pumpkin_os.Fat.Volume.{Disk, Volume, cluster_lba}

-- A disk of `size` sectors that keeps what is written: a read gives the last sector written there,
-- and a write to another sector does not change it.
pub record IsReliable {S : Type 0} (dk : Disk S) (size : ℕ) : Type 0 where
  pub write_ok : (lba : ℕ) (b : List ℕ) (s : S) → lba < size → (dk.write_sector lba b s).0 ≡ true
  pub read_same :
      (lba : ℕ) (b : List ℕ) (s : S)
      → lba < size
      → length b ≡ 512
      → dk.read_sector lba (dk.write_sector lba b s).1 ≡ some b
  pub read_other :
      (lba other : ℕ) (b : List ℕ) (s : S)
      → lba ≢ other
      → dk.read_sector other (dk.write_sector lba b s).1 ≡ dk.read_sector other s

-- The data clusters lie on a disk of `size` sectors, and the table has their entries.
pub record IsMounted {S : Type 0} (size : ℕ) (v : Volume S) : Type 0 where
  pub some_sectors : 0 < v.sectors_per_cluster
  pub on_disk : v.data_start + v.cluster_count * v.sectors_per_cluster ≤ size
  pub disk_fits : size ≤ 2 ^ 32
  pub table : IsFat v.cluster_count v.fat_cache
  pub few : v.cluster_count + 2 ≤ eoc

cluster_offset : (n c spc : ℕ) → 2 ≤ c → c < n + 2 → (c - 2) * spc + spc ≤ n * spc
cluster_offset n c spc lo hi = grind arith

-- The first sector of a data cluster, with no wrap-around.
pub cluster_lba-eq :
    {S : Type 0} {size : ℕ} (v : Volume S) (c : ℕ)
    → IsMounted size v
    → 2 ≤ c
    → c < v.cluster_count + 2
    → cluster_lba v c ≡ v.data_start + (c - 2) * v.sectors_per_cluster
unfolding cluster_lba
cluster_lba-eq v c m lo hi =
    let off = cluster_offset v.cluster_count c v.sectors_per_cluster lo hi in
    let small : (c + 2 ^ 32 - 2) % 2 ^ 32 ≡ c - 2 = omega (arith, m.few) in
    rw small (omega (arith, m.on_disk, m.disk_fits, m.some_sectors))

-- Its sectors lie on the disk.
pub cluster_lba-lt :
    {S : Type 0} {size : ℕ} (v : Volume S) (c : ℕ)
    → IsMounted size v
    → 2 ≤ c
    → c < v.cluster_count + 2
    → cluster_lba v c + v.sectors_per_cluster ≤ size
cluster_lba-lt v c m lo hi = omega (
  arith,
  cluster_lba-eq v c m lo hi,
  cluster_offset v.cluster_count c v.sectors_per_cluster lo hi,
  m.on_disk,
)

apart : (c d spc : ℕ) → 2 ≤ c → c < d → (c - 2) * spc + spc ≤ (d - 2) * spc
apart c d spc lo lt = grind arith

-- Different clusters share no sector.
pub cluster_lba-apart :
    {S : Type 0} {size : ℕ} (v : Volume S) (c d : ℕ)
    → IsMounted size v
    → 2 ≤ c
    → c < v.cluster_count + 2
    → 2 ≤ d
    → d < v.cluster_count + 2
    → c ≢ d
    → (cluster_lba v c + v.sectors_per_cluster ≤ cluster_lba v d)
      ⊎ (cluster_lba v d + v.sectors_per_cluster ≤ cluster_lba v c)
cluster_lba-apart v c d m lo hi lo' hi' ne =
    let ec = cluster_lba-eq v c m lo hi in
    let ed = cluster_lba-eq v d m lo' hi' in
    elim (dec_lt c d) [
      | yes lt ↦ inl (omega (arith, apart c d v.sectors_per_cluster lo lt))
      | no ge ↦ inr (omega (arith, apart d c v.sectors_per_cluster lo' (omega arith)))
    ]
