-- ===== src/Fat/File/Round.antt =====
-- One round of the loop of `fs_create` in fs/fat12.c, and the table that it leaves.
use pumpkin_os.Prelude.{ℕ, suc, ◌+◌, ◌≤◌, ◌<◌, ◌≡◌, ◌≢◌, refl, arith, ap, ◌∙◌, sym, true}
use pumpkin_os.Prelude.{◌==◌, ◌⊎◌, inl, inr, if◌then◌else◌, ≢→==, some, ℕ_discrete}
use pumpkin_os.Prelude.{List, [], length}
use pumpkin_os.Fat.Table.{Cache, eoc, fat_get, fat_put, alloc_cluster}
use pumpkin_os.Fat.Table.Alloc.{IsFat, fat_put-IsFat, fat_get-fat_put}
use pumpkin_os.Fat.Volume.{Disk, Volume, cluster_lba}
use pumpkin_os.Fat.File.{write_sectors, write_chain, chain, disk_full}

module _ {S : Type 0} where
  -- The last cluster so far ends the chain.
  abbrev pub EndsAt : Volume S → ℕ → ℕ → Type 0
  EndsAt v first prev =
      (first ≡ 0 → prev ≡ 0)
      × (prev ≢ 0 → (2 ≤ prev) × (prev < v.cluster_count + 2) × (fat_get prev v.fat_cache ≡ 0xFFF))

  abbrev pub fresh : Volume S → ℕ
  fresh v = (alloc_cluster v.cluster_count v.fat_cache).0

  -- The table after a round that takes the cluster `c`.
  pub record Linked (v : Volume S) (prev c : ℕ) (fat : Cache) : Type 0 where
    pub is_fat : IsFat v.cluster_count fat
    pub new_end : fat_get c fat ≡ 0xFFF
    pub linked : prev ≢ 0 → fat_get prev fat ≡ c
    pub others : (d : ℕ) → (d ≢ prev) ⊎ (prev ≡ 0) → d ≢ c → fat_get d fat ≡ fat_get d v.fat_cache

  pub Linked-after :
      (v : Volume S) (first prev c : ℕ) (fat : Cache)
      → EndsAt v first prev
      → (2 ≤ c) × (c < v.cluster_count + 2) × (fat_get c v.fat_cache ≡ 0)
      → v.cluster_count + 2 ≤ eoc
      → IsFat v.cluster_count fat
      → ((d : ℕ) → fat_get d fat ≡ (if d == c then 0xFFF else fat_get d v.fat_cache))
      → Linked v prev c (if prev == 0 then fat else fat_put prev c fat)
  Linked-after v first prev c fat (a, b) (lo, hi, free) few is now =
      let mine : fat_get c fat ≡ 0xFFF =
        let same : (c == c) ≡ true = ground arith in now c ∙ rw same refl in
      let old : (d : ℕ) → d ≢ c → fat_get d fat ≡ fat_get d v.fat_cache =
        λ d ne. now d ∙ rw (≢→== d c ne) refl in
      elim (ℕ_discrete prev 0) [
        | yes e ↦
            let at : (prev == 0) ≡ true = ground (arith, e) in
            rw at (record {
              is_fat = is;
              new_end = mine;
              linked = λ ne. absurd (ne e);
              others = λ d no_prev ne. old d ne;
            })
        | no ne ↦
            let (lo', hi', at_end) = b ne in
            let apart : c ≢ prev = λ e. absurd (omega (arith, ap (λ k. fat_get k v.fat_cache) e)) in
            let put =
              λ (d : ℕ). fat_get-fat_put v.cluster_count prev d c fat is hi' (omega arith) in
            let self : (prev == prev) ≡ true = ground arith in
            rw (≢→== prev 0 ne) (record {
              is_fat = fat_put-IsFat v.cluster_count prev c fat hi' is;
              new_end = put c ∙ rw (≢→== c prev apart) mine;
              linked = λ n. put prev ∙ rw self refl;
              others = λ d np nc.
                  let off : d ≢ prev = elim np [ inl p ↦ p | inr z ↦ absurd (ne z) ] in
                  put d ∙ rw (≢→== d prev off) (old d nc);
            })
      ]

  pub Linked-used :
      (v : Volume S) (prev c d : ℕ) (fat : Cache)
      → 2 ≤ c
      → fat_get c v.fat_cache ≡ 0
      → Linked v prev c fat
      → fat_get d v.fat_cache ≢ 0
      → (d ≢ c) × (fat_get d fat ≢ 0)
  Linked-used v prev c d fat lo free l h =
      let nc : d ≢ c = λ q. h (ap (λ k. fat_get k v.fat_cache) q ∙ free) in
      (
        nc,
        λ z. elim (ℕ_discrete prev 0) [
          | yes e ↦ h (sym (l.others d (inr e) nc) ∙ z)
          | no ne ↦ elim (ℕ_discrete d prev) [
            | yes same ↦ absurd (omega (arith, l.linked ne, sym (ap (λ k. fat_get k fat) same) ∙ z))
            | no off ↦ h (sym (l.others d (inl off) nc) ∙ z)
          ]
        ],
      )

module _ {S : Type 0} (dk : Disk S) where
  -- The state after a round: the cluster `c` is allocated, linked behind `prev` and written.
  abbrev pub after : Volume S → ℕ → List ℕ → Volume S
  after v prev buf =
      let (c, fat) = alloc_cluster v.cluster_count v.fat_cache in
      record v {
        fat_cache = if prev == 0 then fat else fat_put prev c fat;
        disk = (write_sectors dk v.sectors_per_cluster (cluster_lba v c) buf v.disk).1;
      }

  pub write_chain-step :
      (rounds first prev : ℕ) (buf : List ℕ) (v : Volume S)
      → 0 < length buf
      → fresh v ≢ 0
      → write_chain dk (suc rounds) first prev buf v
        ≡ write_chain dk rounds
            (if first == 0 then fresh v else first)
            (fresh v)
            (write_sectors dk v.sectors_per_cluster (cluster_lba v (fresh v)) buf v.disk).0
            (after v prev buf)
  unfolding write_chain
  write_chain-step rounds first prev buf v more ne =
      rw (≢→== (length buf) 0 (omega arith), ≢→== (fresh v) 0 ne) refl

  pub write_chain-full :
      (rounds first prev : ℕ) (buf : List ℕ) (v : Volume S)
      → 0 < length buf
      → alloc_cluster v.cluster_count v.fat_cache ≡ (0, v.fat_cache)
      → write_chain dk (suc rounds) first prev buf v ≡ some (disk_full first, v)
  unfolding write_chain
  write_chain-full rounds first prev buf v more e =
      let zero_now : fresh v ≡ 0 = ap (λ r. r.0) e in
      let same : (alloc_cluster v.cluster_count v.fat_cache).1 ≡ v.fat_cache = ap (λ r. r.1) e in
      let stop : (fresh v == 0) ≡ true = ground arith in
      rw (≢→== (length buf) 0 (omega arith), stop)
        (ap (λ f. some (disk_full first, record v { fat_cache = f })) same)

  pub write_chain-none :
      (rounds first prev : ℕ) (v : Volume S)
      → write_chain dk (suc rounds) first prev [] v ≡ some (chain first, v)
  unfolding write_chain
  write_chain-none rounds first prev v = refl
