-- ===== src/Editor/Shifts.antt =====
-- The two loops of shell/editor.c that move characters, position by position.
use pumpkin_os.Prelude.{ℕ, zero, suc, ◌+◌, ◌-◌, ◌≤◌, ◌<◌, ◌≡◌, refl, arith, ap, ap₂, ◌∙◌}
use pumpkin_os.Prelude.{
  List, [], ◌∷◌, ◌++◌, length, get_or, set, take, drop, get_or-set, length-set,
}
use pumpkin_os.Prelude.{ltb, leb, ◌&&◌, if◌then◌else◌}
use pumpkin_os.Editor.{shift_right, shift_left}

pub same_list :
    (xs ys : List ℕ)
    → length xs ≡ length ys
    → ((j : ℕ) → j < length xs → get_or xs j 0 ≡ get_or ys j 0)
    → xs ≡ ys
same_list [] [] e f = refl
same_list [] (y ∷ ys) e f = absurd (omega arith)
same_list (x ∷ xs) [] e f = absurd (omega arith)
same_list (x ∷ xs) (y ∷ ys) e f =
    ap₂ (λ x l. x ∷ l) (f 0 (omega arith))
      (same_list xs ys (omega arith) (λ j h. f (suc j) (omega arith)))

pub get_or-take : (n : ℕ) (xs : List ℕ) (j : ℕ) → j < n → get_or (take n xs) j 0 ≡ get_or xs j 0
get_or-take zero xs j h = absurd (omega arith)
get_or-take (suc n) [] j h = refl
get_or-take (suc n) (x ∷ xs) zero h = refl
get_or-take (suc n) (x ∷ xs) (suc j) h = get_or-take n xs j (omega arith)

pub get_or-drop :
    (n : ℕ) (xs : List ℕ) (i j : ℕ) → i ≡ n + j → get_or (drop n xs) j 0 ≡ get_or xs i 0
get_or-drop zero xs i j e = let q : j ≡ i = omega arith in ap (λ i. get_or xs i 0) q
get_or-drop (suc n) [] i j e = refl
get_or-drop (suc n) (x ∷ xs) zero j e = absurd (omega arith)
get_or-drop (suc n) (x ∷ xs) (suc i) j e = get_or-drop n xs i j (omega arith)

pub get_or-left : (xs ys : List ℕ) (j : ℕ) → j < length xs → get_or (xs ++ ys) j 0 ≡ get_or xs j 0
get_or-left [] ys j h = absurd (omega arith)
get_or-left (x ∷ xs) ys zero h = refl
get_or-left (x ∷ xs) ys (suc j) h = get_or-left xs ys j (omega arith)

pub get_or-right :
    (xs ys : List ℕ) (i j : ℕ) → i ≡ length xs + j → get_or (xs ++ ys) i 0 ≡ get_or ys j 0
get_or-right [] ys i j e = ap (λ i. get_or ys i 0) (e ∙ omega arith)
get_or-right (x ∷ xs) ys zero j e = absurd (omega arith)
get_or-right (x ∷ xs) ys (suc i) j e = get_or-right xs ys i j (omega arith)

pub length-shift_right : (buf : List ℕ) (i n : ℕ) → length (shift_right buf i n) ≡ length buf
unfolding shift_right
length-shift_right buf i zero = refl
length-shift_right buf i (suc n) =
    length-shift_right (set buf i (get_or buf (i - 1) 0)) (i - 1) n
    ∙ length-set buf i (get_or buf (i - 1) 0)

-- The characters after `i - n`, as far as `i`, are those one before.
pub shift_right_lem :
    (buf : List ℕ) (i n j : ℕ)
    → n ≤ i
    → i < length buf
    → get_or (shift_right buf i n) j 0
      ≡ (if ltb (i - n) j && leb j i then get_or buf (j - 1) 0 else get_or buf j 0)
unfolding shift_right
shift_right_lem buf i zero j h k = ground arith
shift_right_lem buf i (suc n) j h k =
    let v = get_or buf (i - 1) 0 in
    let again =
      shift_right_lem (set buf i v) (i - 1) n j (omega arith) (omega (arith, length-set buf i v)) in
    let here = get_or-set buf i j v 0 k in
    let before = get_or-set buf i (j - 1) v 0 k in
    let last : (j ≡ i) → get_or buf (j - 1) 0 ≡ v = λ e. ap (λ j. get_or buf (j - 1) 0) e in
    ground arith

pub length-shift_left : (buf : List ℕ) (i n : ℕ) → length (shift_left buf i n) ≡ length buf
unfolding shift_left
length-shift_left buf i zero = refl
length-shift_left buf i (suc n) =
    length-shift_left (set buf i (get_or buf (i + 1) 0)) (i + 1) n
    ∙ length-set buf i (get_or buf (i + 1) 0)

-- The `n` characters from `i` on are those one after.
pub shift_left_lem :
    (buf : List ℕ) (i n j : ℕ)
    → i + n < length buf
    → get_or (shift_left buf i n) j 0
      ≡ (if leb i j && ltb j (i + n) then get_or buf (j + 1) 0 else get_or buf j 0)
unfolding shift_left
shift_left_lem buf i zero j h = ground arith
shift_left_lem buf i (suc n) j h =
    let v = get_or buf (i + 1) 0 in
    let again = shift_left_lem (set buf i v) (i + 1) n j (omega (arith, length-set buf i v)) in
    let here = get_or-set buf i j v 0 (omega arith) in
    let after = get_or-set buf i (j + 1) v 0 (omega arith) in
    let first : (j ≡ i) → get_or buf (j + 1) 0 ≡ v = λ e. ap (λ j. get_or buf (j + 1) 0) e in
    ground arith
