-- ===== src/Fat/Cwd.antt =====
-- `cwd_path` of fs/fat12.c, a C string in an array of 128 characters, and the two functions that
-- edit it. `none` is a write outside the array.
pub mod Push
pub mod Pop
mod Tests
use package.pumpkin_os.Prelude.{ℕ, zero, suc, ◌+◌, ◌-◌, ◌<◌, ltb, ◌==◌, ◌&&◌, not, if◌then◌else◌}
use package.pumpkin_os.Prelude.{Option, none, some, List, [], ◌∷◌, get_or, set, length}

abbrev pub cwd_size : ℕ
cwd_size = 128

abbrev pub slash : ℕ
slash = b'/'

abbrev pub store : List ℕ → ℕ → ℕ → Option (List ℕ)
store buf i c = if ltb i (length buf) then some (set buf i c) else none

pub strlen : List ℕ → ℕ
strlen [] = 0
strlen (c ∷ buf) = let more = suc (strlen buf) in if c == 0 then 0 else more

-- The `for` of `path_push`, from index `l` on: the index where it stops, and the array.
pub push_chars : List ℕ → ℕ → List ℕ → ℕ × List ℕ
push_chars [] l buf = (l, buf)
push_chars (c ∷ name) l buf =
    let more = push_chars name (l + 1) (set buf l c) in
    if ltb l (cwd_size - 1) then more else (l, buf)

-- From the `for` on.
pub push_rest : List ℕ → ℕ → List ℕ → Option (List ℕ)
push_rest name l buf = let (l', buf') = push_chars name l buf in store buf' l' 0

pub path_push : List ℕ → List ℕ → Option (List ℕ)
path_push name buf =
    if strlen buf == 1 then push_rest name 1 buf else elim (store buf (strlen buf) slash) [
      | none ↦ none
      | some buf' ↦ push_rest name (strlen buf + 1) buf'
    ]

-- `while (l > 1 && cwd_path[l - 1] != '/') l--;`
pub back_up : ℕ → List ℕ → ℕ
back_up zero buf = 0
back_up (suc l) buf =
    let less = back_up l buf in
    if ltb 1 (suc l) && not (get_or buf l 0 == slash) then less else suc l

-- The length that `path_pop` ends the string at, from where the walk stopped.
pub kept_length : ℕ → ℕ
kept_length l = let dropped = if ltb 1 l then l - 1 else l in if dropped == 0 then 1 else dropped

pub end_root : List ℕ → ℕ → Option (List ℕ)
end_root buf l = elim (store buf l 0) [ none ↦ none | some buf' ↦ store buf' 0 slash ]

pub path_pop : List ℕ → Option (List ℕ)
path_pop buf = end_root buf (kept_length (back_up (strlen buf) buf))
