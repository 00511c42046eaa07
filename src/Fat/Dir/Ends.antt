-- ===== src/Fat/Dir/Ends.antt =====
-- The walks over a directory of fs/fat12.c end.
use pumpkin_os.Prelude.{
  ℕ, zero, suc, ◌+◌, ◌*◌, ◌/◌, ◌≤◌, ◌<◌, ◌≡◌, ◌≢◌, refl, arith, ap, ◌∙◌, ◌⊎◌, inl, inr, ◌==◌, false,
  Bool-cases, ==→≢,
}
use pumpkin_os.Prelude.{Option, none, some, List, [], ◌∷◌, length}
use native.Mathlib.Nat.{mul-div_cancel}
use pumpkin_os.Fat.Table.{Cache, fat_get}
use pumpkin_os.Fat.Table.Chains.{Chain}
use pumpkin_os.Fat.Volume.{Disk, Volume, follow, dir_sector_lba}
use pumpkin_os.Fat.Dir.{Slot, Outcome, stopped, ended, unread, walk_sector, dir_walk}

-- A directory of `n` sectors: the root, or a chain of clusters.
pub data IsDirectory {S : Type 0} (v : Volume S) (cluster n : ℕ) : Type 0 where
  root_region : cluster ≡ 0 → n ≡ v.root_sectors → IsDirectory v cluster n
  on_chain :
      (x : ℕ) (xs : List ℕ)
      → Chain v.cluster_count v.fat_cache cluster (x ∷ xs)
      → 0 < v.sectors_per_cluster
      → n ≡ length (x ∷ xs) * v.sectors_per_cluster
      → IsDirectory v cluster n

module _ {R A S : Type 0} (body : Slot → A → R ⊎ A) (dk : Disk S) (s : S) (lba_at : A → ℕ → ℕ) where
  abbrev Ends : Option (Outcome R A) → Type 0
  Ends r = (o : Outcome R A) × (r ≡ some o)

  on_Ends :
      (r : R ⊎ A) (k : A → Option (Outcome R A))
      → ((a : A) → Ends (k a))
      → Ends (elim r [ inl r ↦ some (stopped r) | inr a' ↦ k a' ])
  on_Ends (inl r) k f = (stopped r, refl)
  on_Ends (inr a) k f = f a

  read_Ends :
      (sector : Option (List ℕ)) (entries : List ℕ → R ⊎ A) (k : A → Option (Outcome R A)) (a : A)
      → ((a' : A) → Ends (k a'))
      → Ends (elim sector [
        | none ↦ some (unread a)
        | some sec ↦ elim (entries sec) [ inl r ↦ some (stopped r) | inr a' ↦ k a' ]
      ])
  read_Ends none entries k a f = (unread a, refl)
  read_Ends (some sec) entries k a f = on_Ends (entries sec) k f

  -- A walk ends with any fuel that reaches past the last sector.
  pub dir_walk-Ends :
      (n fuel idx : ℕ) (a : A)
      → ((b : A) → lba_at b n ≡ 0)
      → idx ≤ n
      → n < idx + fuel
      → Ends (dir_walk body dk s lba_at fuel idx a)
  unfolding dir_walk
  dir_walk-Ends n zero idx a stop le lt = absurd (omega arith)
  dir_walk-Ends n (suc fuel) idx a stop le lt = elim (Bool-cases (lba_at a idx == 0)) [
    | inl e ↦ rw e (ended a, refl)
    | inr ne ↦
        let on : idx ≢ n = λ x. ==→≢ (lba_at a idx) 0 ne (ap (lba_at a) x ∙ stop a) in
        rw ne (
          read_Ends (dk.read_sector (lba_at a idx) s)
            (λ sec. walk_sector body (lba_at a idx) sec 16 0 a)
            (λ a'. dir_walk body dk s lba_at fuel (idx + 1) a') a
            (λ a'. dir_walk-Ends n fuel (idx + 1) a' stop (ground (arith, on)) (omega arith)))
  ]

follow-Chain :
    (count c : ℕ) (fat : Cache) (x : ℕ) (xs : List ℕ)
    → Chain count fat c (x ∷ xs)
    → follow (suc (length xs)) c fat ≡ none
unfolding follow
follow-Chain count c fat x [] k = rw k.3 refl
follow-Chain count c fat x (y ∷ ys) k = rw k.3.1 (follow-Chain count (fat_get c fat) fat y ys k.3)

-- The sector behind the last has no address.
pub dir_sector_lba-IsDirectory :
    {S : Type 0} (v : Volume S) (cluster n : ℕ)
    → IsDirectory v cluster n
    → dir_sector_lba v cluster n ≡ 0
unfolding dir_sector_lba
dir_sector_lba-IsDirectory v cluster n (root_region e h) = ground (arith, e, h)
dir_sector_lba-IsDirectory v cluster n (on_chain x xs k pos e) =
    let rounds : n / v.sectors_per_cluster ≡ suc (length xs) =
      rw e (mul-div_cancel (suc (length xs)) pos) in
    let not_root : (cluster == 0) ≡ false = ground (arith, k.1) in
    rw (not_root, rounds, follow-Chain v.cluster_count cluster v.fat_cache x xs k) refl
