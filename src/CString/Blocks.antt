-- ===== src/CString/Blocks.antt =====
-- What the block operations of lib/string.c leave in memory.
use pumpkin_os.Prelude.{ℕ, zero, suc, ◌+◌, ◌-◌, ◌≤◌, ◌<◌, ◌≡◌, ◌⊎◌, inl, inr, arith, ap}
use pumpkin_os.Prelude.{
  List, length, get_or, set, get_or-set, length-set, ltb, leb, ◌&&◌, if◌then◌else◌,
}
use pumpkin_os.Prelude.{dec_lt, lt→ltb, le→ltb}
use pumpkin_os.CString.{memcpy, copy_back, memmove}

-- Byte `j` after `n` bytes from `s` on have come to `d`.
abbrev pub copied : List ℕ → ℕ → ℕ → ℕ → ℕ → ℕ
copied mem d s n j = if leb d j && ltb j (d + n) then get_or mem (s + (j - d)) 0 else get_or mem j 0

-- In a memory that has room for the target, where the target starts no higher than the source or
-- behind its end, `memcpy` copies the block as it was and changes nothing outside the target.
memcpy_lem :
    (mem : List ℕ) (d s n j : ℕ)
    → d + n ≤ length mem
    → (d ≤ s) ⊎ (s + n ≤ d)
    → get_or (memcpy mem d s n) j 0 ≡ copied mem d s n j
unfolding memcpy
memcpy_lem mem d s zero j room apart = ground arith
memcpy_lem mem d s (suc n) j room apart =
    let v = get_or mem s 0 in
    let apart' : (d + 1 ≤ s + 1) ⊎ (s + 1 + n ≤ d + 1) = elim apart [
      | inl p ↦ inl (omega arith)
      | inr p ↦ inr (omega arith)
    ] in
    let again =
      memcpy_lem (set mem d v) (d + 1) (s + 1) n j (omega (arith, length-set mem d v)) apart' in
    let here = get_or-set mem d j v 0 (omega arith) in
    let there = get_or-set mem d (s + 1 + (j - (d + 1))) v 0 (omega arith) in
    let first : j ≡ d → get_or mem (s + (j - d)) 0 ≡ v =
      λ e. ap (λ i. get_or mem i 0) (omega arith) in
    let later : d < j → get_or mem (s + 1 + (j - (d + 1))) 0 ≡ get_or mem (s + (j - d)) 0 =
      λ e. ap (λ i. get_or mem i 0) (omega arith) in
    ground arith

copy_back_lem :
    (mem : List ℕ) (d s n j : ℕ)
    → d + n ≤ length mem
    → s ≤ d
    → get_or (copy_back mem d s n) j 0 ≡ copied mem d s n j
unfolding copy_back
copy_back_lem mem d s zero j room below = ground arith
copy_back_lem mem d s (suc n) j room below =
    let v = get_or mem (s + n) 0 in
    let again =
      copy_back_lem (set mem (d + n) v) d s n j (omega (arith, length-set mem (d + n) v)) below in
    let here = get_or-set mem (d + n) j v 0 (omega arith) in
    let there = get_or-set mem (d + n) (s + (j - d)) v 0 (omega arith) in
    let last : j ≡ d + n → get_or mem (s + (j - d)) 0 ≡ v =
      λ e. ap (λ i. get_or mem i 0) (omega arith) in
    ground arith

-- In a memory that has room for the target, `memmove` copies the block as it was before, however the
-- source and the target overlap, and changes nothing outside the target.
pub memmove_lem :
    (mem : List ℕ) (d s n j : ℕ)
    → d + n ≤ length mem
    → get_or (memmove mem d s n) j 0 ≡ copied mem d s n j
unfolding memmove
memmove_lem mem d s n j room = elim (dec_lt d s) [
  | yes lt ↦ rw (lt→ltb d s lt) (memcpy_lem mem d s n j room (inl (omega arith)))
  | no ge ↦ rw (le→ltb d s (omega arith)) (copy_back_lem mem d s n j room (omega arith))
]
