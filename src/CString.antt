-- ===== src/CString.antt =====
-- The block operations of lib/string.c on one memory of bytes, addressed by index; a pointer is an
-- index, and `d < s` compares those.
pub mod Blocks
pub mod Compare
mod Tests
use package.pumpkin_os.Prelude.{ℕ, zero, suc, ◌+◌, ◌%◌, ltb, if◌then◌else◌, List, get_or, set}
use package.pumpkin_os.Prelude.{◌==◌, ◌&&◌, not, Option, none, some}
use package.pumpkin_os.Prelude.Int.{ℤ, pos, sub_ℕ}

-- `while (n--) *d++ = (unsigned char)c;`
pub memset : List ℕ → ℕ → ℕ → ℕ → List ℕ
memset mem d c zero = mem
memset mem d c (suc n) = memset (set mem d (c % 256)) (d + 1) c n

-- `while (n--) *d++ = *s++;`
pub memcpy : List ℕ → ℕ → ℕ → ℕ → List ℕ
memcpy mem d s zero = mem
memcpy mem d s (suc n) = memcpy (set mem d (get_or mem s 0)) (d + 1) (s + 1) n

-- `while (n--) *--d = *--s;` from the two ends, which lie `n` behind `d` and `s`.
pub copy_back : List ℕ → ℕ → ℕ → ℕ → List ℕ
copy_back mem d s zero = mem
copy_back mem d s (suc n) = copy_back (set mem (d + n) (get_or mem (s + n) 0)) d s n

pub memmove : List ℕ → ℕ → ℕ → ℕ → List ℕ
unfolding memcpy copy_back
memmove mem d s n = if ltb d s then memcpy mem d s n else copy_back mem d s n

pub memcmp : List ℕ → ℕ → ℕ → ℕ → ℤ
memcmp mem a b zero = pos 0
memcmp mem a b (suc n) =
    let more = memcmp mem (a + 1) (b + 1) n in
    let x = get_or mem a 0 in let y = get_or mem b 0 in if x == y then more else sub_ℕ x y

-- The loop may run `fuel` rounds; `none` is one that does not end within them.
pub strcmp : ℕ → List ℕ → ℕ → ℕ → Option ℤ
strcmp zero mem a b = none
strcmp (suc fuel) mem a b =
    let more = strcmp fuel mem (a + 1) (b + 1) in
    let x = get_or mem a 0 in
    let y = get_or mem b 0 in if not (x == 0) && x == y then more else some (sub_ℕ x y)

pub strncmp : List ℕ → ℕ → ℕ → ℕ → ℤ
strncmp mem a b zero = pos 0
strncmp mem a b (suc n) =
    let more = strncmp mem (a + 1) (b + 1) n in
    let x = get_or mem a 0 in
    let y = get_or mem b 0 in if not (x == y) then sub_ℕ x y else if x == 0 then pos 0 else more
