-- ===== src/Fat/File/Sectors.antt =====
-- The inner loop of `fs_create` in fs/fat12.c: a cluster's worth of data goes to its sectors.
use pumpkin_os.Prelude.{
  ℕ, zero, suc, ◌+◌, ◌-◌, ◌*◌, ◌≤◌, ◌<◌, ◌≡◌, refl, arith, ap, ◌∙◌, sym, subst,
}
use pumpkin_os.Prelude.{◌⊎◌, inl, inr}
use pumpkin_os.Prelude.{
  List, [], ◌∷◌, length, take, drop, replicate, length-append, length-take, length-replicate,
}
use pumpkin_os.Fat.Volume.{Disk}
use pumpkin_os.Fat.Volume.Lba.{IsReliable}
use pumpkin_os.Fat.File.{write_sectors}
use pumpkin_os.Fat.File.Stored.{padded, InSectors}

length-padded : (buf : List ℕ) → length (padded buf) ≡ 512
length-padded buf = omega (
  arith,
  length-append (take 512 buf) (replicate (512 - length (take 512 buf)) 0),
  length-take 512 buf,
  length-replicate {A = ℕ} (512 - length (take 512 buf)) 0,
)

drop-empty : (n : ℕ) → ◌≡◌ {A = List ℕ} (drop n []) []
drop-empty zero = refl
drop-empty (suc n) = refl

drop-add : (a b : ℕ) (xs : List ℕ) → drop b (drop a xs) ≡ drop (a + b) xs
drop-add zero b xs = let e : b ≡ 0 + b = omega arith in ap (λ k. drop k xs) e
drop-add (suc a) b [] = drop-empty b ∙ sym (drop-empty (suc a + b))
drop-add (suc a) b (x ∷ xs) =
    let e : suc (a + b) ≡ suc a + b = omega arith in drop-add a b xs ∙ ap (λ k. drop k (x ∷ xs)) e

module _ {S : Type 0} (dk : Disk S) (size : ℕ) (good : IsReliable dk size) where
  -- The same sectors of two disks.
  abbrev pub Same : S → S → ℕ → Type 0
  Same s s' lba = dk.read_sector lba s' ≡ dk.read_sector lba s

  pub InSectors-Same :
      (s s' : S) (n lba : ℕ) (buf : List ℕ)
      → ((i : ℕ) → i < n → Same s s' (lba + i))
      → InSectors dk s n lba buf
      → InSectors dk s' n lba buf
  InSectors-Same s s' zero lba buf same h = h
  InSectors-Same s s' (suc n) lba buf same (here, later) =
      let first : Same s s' lba = subst (Same s s') (omega arith) (same 0 (omega arith)) in
      (
        first ∙ here,
        InSectors-Same s s' n (lba + 1) (drop 512 buf)
            (λ i lt. subst (Same s s') (omega arith) (same (suc i) (omega arith))) later,
      )

  -- The `n` sectors are written, no other changes, and the data moves on.
  pub write_sectors_lem :
      (n lba : ℕ) (buf : List ℕ) (s : S)
      → lba + n ≤ size
      → ((write_sectors dk n lba buf s).0 ≡ drop (n * 512) buf)
        × InSectors dk (write_sectors dk n lba buf s).1 n lba buf
        × ((j : ℕ) → (j < lba) ⊎ (lba + n ≤ j) → Same s (write_sectors dk n lba buf s).1 j)
  unfolding write_sectors
  write_sectors_lem zero lba buf s h = (refl, tt, λ j out. refl)
  write_sectors_lem (suc n) lba buf s h =
      let s' = (dk.write_sector lba (padded buf) s).1 in
      let (rest, held, frame) = write_sectors_lem n (lba + 1) (drop 512 buf) s' (omega arith) in
      let total : 512 + n * 512 ≡ suc n * 512 = omega arith in
      (
        rest ∙ drop-add 512 (n * 512) buf ∙ ap (λ k. drop k buf) total,
        (
          frame lba (inl (omega arith))
              ∙ good.read_same lba (padded buf) s (omega arith) (length-padded buf),
          held,
        ),
        λ j out.
            frame j (elim out [ inl p ↦ inl (omega arith) | inr p ↦ inr (omega arith) ])
            ∙ good.read_other lba j (padded buf) s (elim out [
              | inl p ↦ λ e. absurd (omega arith)
              | inr p ↦ λ e. absurd (omega arith)
            ]),
      )
