-- ===== src/Fat/Table/Tests.antt =====
-- Runs on a FAT of four data clusters: 2 → 3 → end, 4 and 5 free.
use pumpkin_os.Prelude.{ℕ, zero, suc, ◌≡◌, ◌≢◌, refl, arith, [], ◌∷◌, some}
use pumpkin_os.Prelude.{if◌then◌else◌, true}
use pumpkin_os.Fat.Table.{Cache, fat_get, fat_put, free_cluster, alloc_cluster, free_chain}
use pumpkin_os.Fat.Table.Entries.{IsBytes, AllBytes-IsBytes}
use pumpkin_os.Fat.Table.Alloc.{IsFat}
use pumpkin_os.Fat.Table.Chains.{Chain, elem, free_chain_lem}

abbrev small : Cache
small = 0xF0 ∷ 0xFF ∷ 0xFF ∷ 0x03 ∷ 0xF0 ∷ 0xFF ∷ 0 ∷ 0 ∷ 0 ∷ []

small-IsBytes : IsBytes small
small-IsBytes = AllBytes-IsBytes small (omega arith)

small-IsFat : IsFat 4 small
small-IsFat = record { bytes = small-IsBytes; covers = omega arith }

small-Chain : Chain 4 small 2 (2 ∷ 3 ∷ [])
unfolding fat_get
small-Chain = (refl, refl, omega arith, (refl, refl, omega arith, refl))

in_use : (d : ℕ) → elem d (2 ∷ 3 ∷ []) ≡ true → fat_get d small ≢ 0
unfolding fat_get
in_use zero on = absurd (ground arith)
in_use (suc zero) on = absurd (ground arith)
in_use (suc (suc zero)) on = omega arith
in_use (suc (suc (suc zero))) on = omega arith
in_use (suc (suc (suc (suc d)))) on = absurd (ground arith)

alloc_four : (alloc_cluster 4 small).0 ≡ 4
unfolding alloc_cluster free_cluster fat_get
alloc_four = refl

freed : free_chain 3 2 small ≡ some (0xF0 ∷ 0xFF ∷ 0xFF ∷ 0 ∷ 0 ∷ 0 ∷ 0 ∷ 0 ∷ 0 ∷ [])
unfolding free_chain fat_get fat_put
freed = refl

free_chain_lem_example :
    (new : Cache) × (free_chain 3 2 small ≡ some new)
    × IsFat 4 new
    × ((d : ℕ) → fat_get d new ≡ (if elem d (2 ∷ 3 ∷ []) then 0 else fat_get d small))
free_chain_lem_example =
    free_chain_lem 4 3 2 small (2 ∷ 3 ∷ []) small-IsFat small-Chain (omega arith)
