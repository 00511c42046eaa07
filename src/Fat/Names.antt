-- ===== src/Fat/Names.antt =====
-- The names of fs/fat12.c: the 11 bytes of a directory entry and what is shown for them. A C string
-- is the list of its characters before the terminating zero, as bytes.
pub mod Encode
pub mod RoundTrip
mod Tests
use package.pumpkin_os.Prelude.{
  ℕ, zero, suc, ◌+◌, ◌-◌, ◌≡◌, ◌&&◌, ◌||◌, leb, ◌==◌, ltb, if◌then◌else◌,
}
use package.pumpkin_os.Prelude.{List, [], ◌∷◌, ◌++◌, get_or, set, replicate}

abbrev pub space : ℕ
space = 0x20

-- `if (c >= 'a' && c <= 'z') c -= 32`, and the function of that name.
pub upper : ℕ → ℕ
upper c = if leb b'a' c && leb c b'z' then c - 32 else c

-- The first `while` of `to_83`: the rest of the name, and the bytes.
pub write_base : List ℕ → ℕ → List ℕ → List ℕ × List ℕ
unfolding upper
write_base [] i out = ([], out)
write_base (c ∷ name) i out =
    let more = write_base name (i + 1) (set out i (upper c)) in
    if c == b'.' || leb 8 i then (c ∷ name, out) else more

-- `while (*name && *name != '.') name++;`
pub skip_to_dot : List ℕ → List ℕ
skip_to_dot [] = []
skip_to_dot (c ∷ name) = let more = skip_to_dot name in if c == b'.' then c ∷ name else more

-- The last `while`, from byte `j` on.
pub write_ext : List ℕ → ℕ → List ℕ → List ℕ
unfolding upper
write_ext [] j out = out
write_ext (c ∷ name) j out =
    let more = write_ext name (j + 1) (set out j (upper c)) in if ltb j 11 then more else out

-- What follows the dot.
pub write_after_dot : List ℕ → List ℕ → List ℕ
unfolding write_ext
write_after_dot [] out = out
write_after_dot (c ∷ name) out = write_ext name 8 out

pub to_83 : List ℕ → List ℕ
unfolding write_base skip_to_dot write_after_dot
to_83 name =
    let (rest, out) = write_base name 0 (replicate 11 space) in
    write_after_dot (skip_to_dot rest) out

-- A loop of `format_name` from byte `j`, with `n` bytes to go.
unfoldable pub copy_until_space : List ℕ → ℕ → ℕ → List ℕ
copy_until_space e zero j = []
copy_until_space e (suc n) j =
    let more = get_or e j 0 ∷ copy_until_space e n (j + 1) in
    if get_or e j 0 == space then [] else more

unfoldable pub format_name : List ℕ → List ℕ
format_name e =
    copy_until_space e 8 0 ++ (if get_or e 8 0 == space then [] else b'.' ∷ copy_until_space e 3 8)
