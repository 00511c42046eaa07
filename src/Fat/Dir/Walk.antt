-- ===== src/Fat/Dir/Walk.antt =====
-- Invariants of the walks over a directory of fs/fat12.c.
use pumpkin_os.Prelude.{
  ℕ, zero, suc, ◌+◌, ◌*◌, ◌≤◌, ◌<◌, ◌≡◌, refl, arith, ◌⊎◌, inl, inr, ◌==◌, Bool-cases,
}
use pumpkin_os.Prelude.{Option, none, some, List}
use pumpkin_os.Fat.Volume.{Disk}
use pumpkin_os.Fat.Dir.{Slot, Outcome, stopped, ended, unread, walk_sector, dir_walk}

-- A slot of the disk: its sector is what a read of it gives, and the entry is one of its 16.
pub record IsOnDisk {S : Type 0} (dk : Disk S) (s : S) (slot : Slot) : Type 0 where
  pub sector : dk.read_sector slot.lba s ≡ some slot.sec
  pub index : ℕ
  pub below : index < 16
  pub offset : slot.off ≡ index * 32

module _ {R A : Type 0} (P : A → Type 0) (Q : R → Type 0) where
  -- The body returned with `Q`, or goes on with `P`.
  abbrev pub Either : R ⊎ A → Type 0
  Either (inl r) = Q r
  Either (inr a) = P a

  abbrev pub Keeps : Option (Outcome R A) → Type 0
  Keeps none = Unit
  Keeps (some (stopped r)) = Q r
  Keeps (some (ended a)) = P a
  Keeps (some (unread a)) = P a

  bind_Either :
      (r : R ⊎ A) (k : A → R ⊎ A)
      → Either r
      → ((a : A) → P a → Either (k a))
      → Either (elim r [ inl r ↦ inl r | inr a' ↦ k a' ])
  bind_Either (inl r) k q f = q
  bind_Either (inr a) k q f = f a q

  on_Keeps :
      (r : R ⊎ A) (k : A → Option (Outcome R A))
      → Either r
      → ((a : A) → P a → Keeps (k a))
      → Keeps (elim r [ inl r ↦ some (stopped r) | inr a' ↦ k a' ])
  on_Keeps (inl r) k q f = q
  on_Keeps (inr a) k q f = f a q

  read_Keeps :
      (sector : Option (List ℕ)) (entries : List ℕ → R ⊎ A) (k : A → Option (Outcome R A)) (a : A)
      → P a
      → ((sec : List ℕ) → sector ≡ some sec → Either (entries sec))
      → ((a' : A) → P a' → Keeps (k a'))
      → Keeps (elim sector [
        | none ↦ some (unread a)
        | some sec ↦ elim (entries sec) [ inl r ↦ some (stopped r) | inr a' ↦ k a' ]
      ])
  read_Keeps none entries k a p f g = p
  read_Keeps (some sec) entries k a p f g = on_Keeps (entries sec) k (f sec refl) g

  module _ {S : Type 0} (dk : Disk S) (s : S) (body : Slot → A → R ⊎ A)
      (step : (slot : Slot) (a : A) → IsOnDisk dk s slot → P a → Either (body slot a)) where
    walk_sector-Either :
        (lba : ℕ) (sec : List ℕ) (n e : ℕ) (a : A)
        → dk.read_sector lba s ≡ some sec
        → n + e ≤ 16
        → P a
        → Either (walk_sector body lba sec n e a)
    unfolding walk_sector
    walk_sector-Either lba sec zero e a on h p = p
    walk_sector-Either lba sec (suc n) e a on h p =
        let slot : Slot = record { lba = lba; sec = sec; off = e * 32 } in
        bind_Either (body slot a) (λ a'. walk_sector body lba sec n (e + 1) a')
          (step slot a (record { sector = on; index = e; below = omega arith; offset = refl }) p)
          (λ a' q. walk_sector-Either lba sec n (e + 1) a' on (omega arith) q)

    -- An invariant of the body holds of the outcome of the walk.
    pub dir_walk-Keeps :
        (lba_at : A → ℕ → ℕ) (fuel idx : ℕ) (a : A)
        → P a
        → Keeps (dir_walk body dk s lba_at fuel idx a)
    unfolding dir_walk
    dir_walk-Keeps lba_at zero idx a p = tt
    dir_walk-Keeps lba_at (suc fuel) idx a p = elim (Bool-cases (lba_at a idx == 0)) [
      | inl e ↦ rw e p
      | inr ne ↦ rw ne (
          read_Keeps (dk.read_sector (lba_at a idx) s)
            (λ sec. walk_sector body (lba_at a idx) sec 16 0 a)
            (λ a'. dir_walk body dk s lba_at fuel (idx + 1) a') a p
            (λ sec on. walk_sector-Either (lba_at a idx) sec 16 0 a on (omega arith) p)
            (λ a' q. dir_walk-Keeps lba_at fuel (idx + 1) a' q))
    ]
