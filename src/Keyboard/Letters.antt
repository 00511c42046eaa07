-- ===== src/Keyboard/Letters.antt =====
-- The letter keys of drivers/keyboard.c under shift and caps lock.
use pumpkin_os.Prelude.{ℕ, zero, suc, ◌-◌, ◌≤◌, ◌<◌, ◌≡◌, refl, arith, ap, ◌∙◌}
use pumpkin_os.Prelude.{
  List, [], ◌∷◌, length, get_or, Bool, true, false, ◌&&◌, leb, ◌==◌, if◌then◌else◌,
}
use pumpkin_os.Keyboard.{keymap, keymap_shift, flip_case, key_char}

-- Whether two tables agree on letters: a small letter stands against its capital, and only there.
shifts : List ℕ → List ℕ → Bool
shifts [] bs = true
shifts (a ∷ as') [] = true
shifts (a ∷ as') (b ∷ bs) =
    let more = shifts as' bs in (if leb b'a' a && leb a b'z' then b == a - 32 else true) && more

shifts_lem :
    (as' bs : List ℕ) (i : ℕ)
    → shifts as' bs ≡ true
    → i < length bs
    → b'a' ≤ get_or as' i 0
    → get_or as' i 0 ≤ b'z'
    → get_or bs i 0 ≡ get_or as' i 0 - 32
unfolding shifts
shifts_lem [] bs i e h lo hi = absurd (omega arith)
shifts_lem (a ∷ as') [] i e h lo hi = absurd (omega arith)
shifts_lem (a ∷ as') (b ∷ bs) zero e h lo hi = ground arith
shifts_lem (a ∷ as') (b ∷ bs) (suc i) e h lo hi =
    shifts_lem as' bs i (ground arith) (omega arith) lo hi

letters : shifts keymap keymap_shift ≡ true
unfolding shifts
letters = refl

abbrev cased : Bool → ℕ → ℕ
cased caps c = if c == 0 then 0 else if caps then flip_case c else c

cased-plain : (c : ℕ) → 0 < c → cased false c ≡ c
cased-plain c h = ground arith

cased-small : (c : ℕ) → b'a' ≤ c → c ≤ b'z' → cased true c ≡ c - 32
cased-small c lo hi = ground arith

cased-capital : (c : ℕ) → b'a' ≤ c → c ≤ b'z' → cased true (c - 32) ≡ c
cased-capital c lo hi = ground arith

-- A letter key types a capital exactly when one of shift and caps lock is on, not both.
key_char-letter :
    (shift caps : Bool) (sc : ℕ)
    → sc < 128
    → b'a' ≤ get_or keymap sc 0
    → get_or keymap sc 0 ≤ b'z'
    → key_char shift caps sc ≡ (
        if shift
        then if caps then get_or keymap sc 0 else get_or keymap sc 0 - 32
        else if caps
        then get_or keymap sc 0 - 32
        else get_or keymap sc 0)
unfolding key_char
key_char-letter true true sc h lo hi =
    ap (cased true) (shifts_lem keymap keymap_shift sc letters h lo hi)
    ∙ cased-capital (get_or keymap sc 0) lo hi
key_char-letter true false sc h lo hi =
    ap (cased false) (shifts_lem keymap keymap_shift sc letters h lo hi)
    ∙ cased-plain (get_or keymap sc 0 - 32) (omega arith)
key_char-letter false true sc h lo hi = cased-small (get_or keymap sc 0) lo hi
key_char-letter false false sc h lo hi = cased-plain (get_or keymap sc 0) (omega arith)
