-- ===== src/Fat/File/Stored.antt =====
-- Data that lies in a chain of clusters, as the loop of `fs_read` of fs/fat12.c finds it.
use pumpkin_os.Prelude.{ℕ, zero, suc, ◌+◌, ◌-◌, ◌*◌, ◌≤◌, ◌<◌, ◌≡◌, refl, arith, ap, ◌∙◌, sym}
use pumpkin_os.Prelude.{true, false, ltb, leb, ◌==◌, ◌&&◌, ≢→==, dec_lt, lt→ltb, le→ltb, some}
use pumpkin_os.Prelude.{
  List, [], ◌∷◌, ◌++◌, length, take, drop, replicate, length-take, length-drop, take-append-drop,
}
use pumpkin_os.Fat.Table.{Cache, eoc, fat_get}
use pumpkin_os.Fat.Table.Chains.{is_end}
use pumpkin_os.Fat.Volume.{Disk, Volume, cluster_lba}
use pumpkin_os.Fat.File.{part, read_sectors, read_clusters}

-- A sector's worth of data, filled up with zeros.
abbrev pub padded : List ℕ → List ℕ
padded buf = take 512 buf ++ replicate (512 - length (take 512 buf)) 0

take-empty : (n : ℕ) → ◌≡◌ {A = List ℕ} (take n []) []
take-empty zero = refl
take-empty (suc n) = refl

take-add : (a b : ℕ) (xs : List ℕ) → take (a + b) xs ≡ take a xs ++ take b (drop a xs)
take-add zero b xs = let e : 0 + b ≡ b = omega arith in ap (λ k. take k xs) e
take-add (suc a) b [] = take-empty (suc a + b) ∙ sym (take-empty b)
take-add (suc a) b (x ∷ xs) =
    let e : suc a + b ≡ suc (a + b) = omega arith in
    ap (λ k. take k (x ∷ xs)) e ∙ ap (λ l. x ∷ l) (take-add a b xs)

-- The part of a padded sector that is data.
take-padded : (buf rest : List ℕ) (n : ℕ) → n ≡ length buf → take n (buf ++ rest) ≡ buf
take-padded [] rest zero e = refl
take-padded [] rest (suc n) e = absurd (omega arith)
take-padded (x ∷ buf) rest zero e = absurd (omega arith)
take-padded (x ∷ buf) rest (suc n) e = ap (λ l. x ∷ l) (take-padded buf rest n (omega arith))

part-length : (buf : List ℕ) → part (length buf) ≡ length (take 512 buf)
part-length buf = elim (dec_lt (length buf) 512) [
  | yes lt ↦ rw (lt→ltb _ _ lt) (omega (arith, length-take 512 buf))
  | no ge ↦ rw (le→ltb (length buf) 512 (omega arith)) (omega (arith, length-take 512 buf))
]

module _ {S : Type 0} (dk : Disk S) where
  -- The `n` sectors from `lba` on hold the data, one sector's worth each.
  abbrev pub InSectors : S → ℕ → ℕ → List ℕ → Type 0
  InSectors s zero lba buf = Unit
  InSectors s (suc n) lba buf =
      (dk.read_sector lba s ≡ some (padded buf)) × InSectors s n (lba + 1) (drop 512 buf)

  -- The chain of `rounds` clusters from `c` on holds the data, in the given table and disk.
  abbrev pub Stored : Volume S → Cache → S → ℕ → ℕ → List ℕ → Type 0
  Stored v fat s zero c buf = (buf ≡ []) × (is_end c ≡ true)
  Stored v fat s (suc rounds) c buf =
      (0 < length buf)
      × (2 ≤ c)
      × (c < eoc)
      × InSectors s v.sectors_per_cluster (cluster_lba v c) buf
      × Stored v fat s rounds (fat_get c fat) (drop (v.sectors_per_cluster * 512) buf)

  read_sectors_lem :
      (n lba : ℕ) (buf : List ℕ) (s : S)
      → InSectors s n lba buf
      → read_sectors dk n lba (length buf) s ≡ some (take (n * 512) buf)
  unfolding read_sectors
  read_sectors_lem zero lba buf s h = refl
  read_sectors_lem (suc n) lba [] s h = sym (ap some (take-empty (suc n * 512)))
  read_sectors_lem (suc n) lba (x ∷ b) s (here, later) =
      let buf = x ∷ b in
      let size : suc n * 512 ≡ 512 + n * 512 = omega arith in
      let some_left : (length buf == 0) ≡ false = ≢→== _ _ (omega arith) in
      let left : length buf - part (length buf) ≡ length (drop 512 buf) =
        omega (arith, part-length buf, length-take 512 buf, length-drop 512 buf) in
      let more = read_sectors_lem n (lba + 1) (drop 512 buf) s later in
      let mine =
        take-padded (take 512 buf) (replicate (512 - length (take 512 buf)) 0) (part (length buf))
          (part-length buf) in
      rw (some_left, here, left, more)
        (ap some (
          ap (λ l. l ++ take (n * 512) (drop 512 buf)) mine
          ∙ sym (take-add 512 (n * 512) buf)
          ∙ ap (λ k. take k buf) (sym size)))

  -- Data that is stored in a chain of at most 8192 clusters is what the loop of `fs_read` reads.
  pub read_clusters_lem :
      (v : Volume S) (rounds guard c : ℕ) (buf : List ℕ)
      → rounds ≤ guard
      → Stored v v.fat_cache v.disk rounds c buf
      → read_clusters dk guard c (length buf) v ≡ some buf
  unfolding read_clusters
  read_clusters_lem v zero zero c buf le (e, end) = ap some (sym e)
  read_clusters_lem v zero (suc guard) c buf le (e, end) =
      let out : (leb 2 c && ltb c eoc) ≡ false = ground arith in rw out (ap some (sym e))
  read_clusters_lem v (suc rounds) zero c buf le h = absurd (omega arith)
  read_clusters_lem v (suc rounds) (suc guard) c buf le (more, lo, hi, here, later) =
      let in_chain : (leb 2 c && ltb c eoc) ≡ true = ground arith in
      let some_left : (length buf == 0) ≡ false = ≢→== _ _ (omega arith) in
      let bytes = v.sectors_per_cluster * 512 in
      let rest =
        read_clusters_lem v rounds guard (fat_get c v.fat_cache) (drop bytes buf) (omega arith)
          later in
      let left : length buf - bytes ≡ length (drop bytes buf) = sym (length-drop bytes buf) in
      rw
        (
          in_chain,
          some_left,
          read_sectors_lem v.sectors_per_cluster (cluster_lba v c) buf v.disk here,
          left,
          rest,
        )
        (ap some (take-append-drop bytes buf))
