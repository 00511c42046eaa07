-- ===== src/Fat/File/Write.antt =====
-- The loop of `fs_create` in fs/fat12.c: it stores its data in a chain of fresh clusters.
use pumpkin_os.Prelude.{
  ℕ, zero, suc, ◌+◌, ◌*◌, ◌^◌, ◌≤◌, ◌<◌, ◌≡◌, ◌≢◌, refl, arith, ap, ◌∙◌, sym, subst, subst₂, true,
}
use pumpkin_os.Prelude.{◌==◌, ◌⊎◌, inl, inr, if◌then◌else◌, ≢→==, Option, some}
use pumpkin_os.Prelude.{List, [], ◌∷◌, length, drop, length-drop}
use pumpkin_os.Fat.Table.{Cache, fat_get, alloc_cluster}
use pumpkin_os.Fat.Table.Alloc.{IsFat, AllTaken, Allocates, taken, alloc_cluster-Allocates}
use pumpkin_os.Fat.Volume.{Disk, Volume, cluster_lba}
use pumpkin_os.Fat.Volume.Lba.{IsReliable, IsMounted, cluster_lba-lt, cluster_lba-apart}
use pumpkin_os.Fat.File.{read_clusters, write_sectors, write_chain, Written, chain, disk_full}
use pumpkin_os.Fat.File.Sectors.{Same, InSectors-Same, write_sectors_lem}
use pumpkin_os.Fat.File.Stored.{InSectors, Stored, read_clusters_lem}
use pumpkin_os.Fat.File.Round.{
  EndsAt, fresh, after, Linked, Linked-after, Linked-used, write_chain-step, write_chain-full,
  write_chain-none,
}

module _ {S : Type 0} (dk : Disk S) (size : ℕ) (good : IsReliable dk size) where
  -- What the loop leaves of the volume `v`: table `fat`, disk `s`, the data from cluster `head` on,
  -- and everything else that was in use as it was.
  pub record Wrote (v : Volume S) (first prev : ℕ) (buf : List ℕ) (fat : Cache) (s : S) (f : ℕ)
      : Type 0 where
    pub rounds : ℕ
    pub head : ℕ
    pub stored : Stored dk v fat s rounds head buf
    pub is_fat : IsFat v.cluster_count fat
    pub short : rounds * 512 ≤ length buf + 511
    pub link : prev ≢ 0 → fat_get prev fat ≡ head
    pub start : first ≡ 0 → f ≡ head
    pub same_start : first ≢ 0 → f ≡ first
    pub table :
        (d : ℕ) → fat_get d v.fat_cache ≢ 0 → d ≢ prev → fat_get d fat ≡ fat_get d v.fat_cache
    pub sectors :
        (d i : ℕ)
        → 2 ≤ d
        → d < v.cluster_count + 2
        → fat_get d v.fat_cache ≢ 0
        → i < v.sectors_per_cluster
        → Same dk size good v.disk s (cluster_lba v d + i)

  -- The two outcomes: the data is written, or a table with every cluster in use.
  pub data Writes (v : Volume S) (first prev : ℕ) (buf : List ℕ) (r : Option (Written × Volume S))
      : Type 0 where
    wrote :
        (f : ℕ) (fat : Cache) (s : S)
        → r ≡ some (chain f, record v { fat_cache = fat; disk = s })
        → Wrote v first prev buf fat s f
        → Writes v first prev buf r
    out_of_room :
        (f : ℕ) (w : Volume S)
        → r ≡ some (disk_full f, w)
        → AllTaken w.fat_cache 2 (v.cluster_count + 2)
        → Writes v first prev buf r

  Wrote-nothing :
      (first prev : ℕ) (v : Volume S)
      → IsMounted size v
      → EndsAt v first prev
      → Wrote v first prev [] v.fat_cache v.disk first
  Wrote-nothing first prev v m (a, b) = record {
    rounds = 0;
    head = if prev == 0 then 0 else 0xFFF;
    stored = (refl, ground arith);
    is_fat = m.table;
    short = omega arith;
    link = λ ne. (b ne).2 ∙ sym (rw (≢→== prev 0 ne) refl);
    start = λ e. ground (arith, a e);
    same_start = λ ne. refl;
    table = λ d used ne. refl;
    sectors = λ d i lo hi used lt. refl;
  }

  Wrote-step :
      (v : Volume S) (first prev c : ℕ) (buf more : List ℕ) (fat1 fat : Cache) (s1 s : S) (f : ℕ)
      → IsMounted size v
      → EndsAt v first prev
      → 0 < length buf
      → (2 ≤ c) × (c < v.cluster_count + 2) × (fat_get c v.fat_cache ≡ 0)
      → Linked v prev c fat1
      → more ≡ drop (v.sectors_per_cluster * 512) buf
      → InSectors dk s1 v.sectors_per_cluster (cluster_lba v c) buf
      → ((j : ℕ)
          → (j < cluster_lba v c) ⊎ (cluster_lba v c + v.sectors_per_cluster ≤ j)
          → Same dk size good v.disk s1 j)
      → Wrote
          (record v { fat_cache = fat1; disk = s1 })
          (if first == 0 then c else first)
          c
          more
          fat
          s
          f
      → Wrote v first prev buf fat s f
  unfolding cluster_lba
  Wrote-step v first prev c buf more fat1 fat s1 s f m e some_data (lo, hi, free) l moved held frame
        w =
      let head_now : fat_get c fat ≡ w.head = w.link (omega arith) in
      let not_end : fat_get c fat1 ≢ 0 = λ z. absurd (omega (arith, l.new_end)) in
      let used : (d : ℕ) → fat_get d v.fat_cache ≢ 0 → (d ≢ c) × (fat_get d fat1 ≢ 0) =
        λ d h. Linked-used v prev c d fat1 lo free l h in
      record {
        rounds = suc w.rounds;
        head = c;
        stored = (
          some_data,
          lo,
          omega (arith, m.few),
          InSectors-Same dk size good s1 s v.sectors_per_cluster (cluster_lba v c) buf
              (λ i lt. w.sectors c i lo hi not_end lt) held,
          subst₂ (Stored dk v fat s w.rounds) (sym head_now) moved w.stored,
        );
        is_fat = w.is_fat;
        short = omega (
          arith,
          w.short,
          ap length moved,
          length-drop (v.sectors_per_cluster * 512) buf,
          m.some_sectors,
        );
        link = λ ne.
            let (lo', hi', at_end) = e.1 ne in
            let np : prev ≢ c = λ q. absurd (omega (arith, ap (λ k. fat_get k v.fat_cache) q)) in
            w.table prev (λ z. absurd (omega (arith, l.linked ne))) np ∙ l.linked ne;
        start = λ z.
            let at : (first == 0) ≡ true = ground (arith, z) in
            let on : (if first == 0 then c else first) ≡ c = rw at refl in
            w.same_start (λ q. absurd (omega (arith, on))) ∙ on;
        same_start = λ ne.
            let on : (if first == 0 then c else first) ≡ first = rw (≢→== first 0 ne) refl in
            w.same_start (λ q. ne (sym on ∙ q)) ∙ on;
        table = λ d in_use ne.
            let (nc, still) = used d in_use in w.table d still nc ∙ l.others d (inl ne) nc;
        sectors = λ d i lo' hi' in_use lt.
            let (nc, still) = used d in_use in
            w.sectors d i lo' hi' still lt
            ∙ frame (cluster_lba v d + i)
                (elim (cluster_lba-apart v c d m lo hi lo' hi' (λ q. nc (sym q))) [
                  | inl p ↦ inr (omega arith)
                  | inr p ↦ inl (omega arith)
                ]);
      }

  first_set : (first k : ℕ) → k ≢ 0 → (if first == 0 then k else first) ≢ 0
  first_set first k ne z = ground arith

  pub write_chain-Writes :
      (rounds first prev : ℕ) (buf : List ℕ) (v : Volume S)
      → length buf < rounds
      → IsMounted size v
      → EndsAt v first prev
      → Writes v first prev buf (write_chain dk rounds first prev buf v)
  write_chain-Writes zero first prev buf v lt m e = absurd (omega arith)
  write_chain-Writes (suc rounds) first prev [] v lt m e =
      wrote first v.fat_cache v.disk (write_chain-none dk rounds first prev v)
        (Wrote-nothing first prev v m e)
  write_chain-Writes (suc rounds) first prev (x ∷ buf) v lt m e =
      elim (alloc_cluster-Allocates v.cluster_count v.fat_cache m.table) [
        | Allocates.full all r ↦
            out_of_room first v (write_chain-full dk rounds first prev (x ∷ buf) v (omega arith) r)
              all
        | taken c (lo, hi, free, below) r fat now ↦
            let v1 = after dk v prev (x ∷ buf) in
            let k = fresh v in
            let lo' : 2 ≤ k = omega (arith, r) in
            let hi' : k < v.cluster_count + 2 = omega (arith, r) in
            let free' : fat_get k v.fat_cache ≡ 0 = ap (λ d. fat_get d v.fat_cache) r ∙ free in
            let on =
              subst
                (λ c.
                  (d : ℕ)
                  → fat_get d (alloc_cluster v.cluster_count v.fat_cache).1
                    ≡ (if d == c then 0xFFF else fat_get d v.fat_cache))
                (sym r) now in
            let l = Linked-after v first prev k _ e (lo', hi', free') m.few fat on in
            let (moved, held, frame) =
              write_sectors_lem dk size good v.sectors_per_cluster (cluster_lba v k) (x ∷ buf)
                v.disk (cluster_lba-lt v k m lo' hi') in
            let more =
              (write_sectors dk v.sectors_per_cluster (cluster_lba v k) (x ∷ buf) v.disk).0 in
            let next = if first == 0 then k else first in
            let shorter : length more < rounds = omega (
              arith,
              ap length moved,
              length-drop (v.sectors_per_cluster * 512) (x ∷ buf),
              m.some_sectors,
            ) in
            let mounted : IsMounted size v1 = record {
              some_sectors = m.some_sectors;
              on_disk = m.on_disk;
              disk_fits = m.disk_fits;
              table = l.is_fat;
              few = m.few;
            } in
            let ends : EndsAt v1 next k =
              (λ z. absurd (first_set first k (omega arith) z), λ n. (lo', hi', l.new_end)) in
            let step =
              write_chain-step dk rounds first prev (x ∷ buf) v (omega arith) (omega arith) in
            elim (write_chain-Writes rounds next k more v1 shorter mounted ends) [
              | wrote f fat' s eq w ↦ wrote f fat' s (step ∙ eq) (
                  Wrote-step v first prev k (x ∷ buf) more v1.fat_cache fat' v1.disk s f m e
                    (omega arith) (lo', hi', free') l moved held frame w)
              | out_of_room f w eq all ↦ out_of_room f w (step ∙ eq) all
            ]
      ]

  -- The outcome of writing `buf` to a volume with an empty chain: it is stored, and reads back; or
  -- the table is full.
  pub data ReadsBack (v : Volume S) (buf : List ℕ) : Type 0 where
    stored :
        (f : ℕ) (fat : Cache) (s : S)
        → write_chain dk (suc (length buf)) 0 0 buf v
          ≡ some (chain f, record v { fat_cache = fat; disk = s })
        → read_clusters dk 8192 f (length buf) (record v { fat_cache = fat; disk = s }) ≡ some buf
        → ((d : ℕ) → 2 ≤ d → fat_get d v.fat_cache ≢ 0 → fat_get d fat ≡ fat_get d v.fat_cache)
        → ((d i : ℕ)
            → 2 ≤ d
            → d < v.cluster_count + 2
            → fat_get d v.fat_cache ≢ 0
            → i < v.sectors_per_cluster
            → dk.read_sector (cluster_lba v d + i) s ≡ dk.read_sector (cluster_lba v d + i) v.disk)
        → ReadsBack v buf
    full :
        (f : ℕ) (w : Volume S)
        → write_chain dk (suc (length buf)) 0 0 buf v ≡ some (disk_full f, w)
        → AllTaken w.fat_cache 2 (v.cluster_count + 2)
        → ReadsBack v buf

  -- On a mounted volume over a reliable disk, the loop of `fs_create` for at most 4 MiB of data ends:
  -- either the loop of `fs_read` from its first cluster reads the data back, and every cluster that
  -- was in use before keeps its entry and its sectors; or no cluster of the table is left free.
  pub read_clusters-write_chain :
      (buf : List ℕ) (v : Volume S) → IsMounted size v → length buf ≤ 2 ^ 22 → ReadsBack v buf
  unfolding cluster_lba
  read_clusters-write_chain buf v m small =
      elim (write_chain-Writes (suc (length buf)) 0 0 buf v (omega arith) m
        (λ e. e, λ ne. absurd (ne refl))) [
          | out_of_room f w e all ↦ full f w e all
          | wrote f fat s e w ↦
              stored f fat s e
                (ap
                    (λ c.
                      read_clusters dk 8192 c (length buf) (record v { fat_cache = fat; disk = s }))
                    (w.start refl)
                  ∙ read_clusters_lem dk (record v { fat_cache = fat; disk = s }) w.rounds 8192
                      w.head buf (omega (arith, w.short)) (w.stored))
                (λ d lo used. w.table d used (omega arith)) w.sectors
        ]
