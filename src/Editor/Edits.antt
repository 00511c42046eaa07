-- ===== src/Editor/Edits.antt =====
-- Insertion and deletion in shell/editor.c against the text as a list.
use pumpkin_os.Prelude.{ℕ, suc, ◌+◌, ◌-◌, ◌≤◌, ◌<◌, ◌≡◌, refl, arith, ap, ap₂, ◌∙◌}
use pumpkin_os.Prelude.{List, ◌∷◌, ◌++◌, length, get_or, set, take, drop, get_or-set, length-set}
use pumpkin_os.Prelude.{
  length-append, length-take, length-drop, true, false, ltb, leb, ◌==◌, ◌&&◌, if◌then◌else◌, dec_lt,
  ℕ_discrete, lt→ltb, le→ltb, ≢→==,
}
use pumpkin_os.Editor.Shifts.{
  same_list, get_or-take, get_or-drop, get_or-left, get_or-right, length-shift_right,
}
use pumpkin_os.Editor.Shifts.{shift_right_lem, length-shift_left, shift_left_lem}
use pumpkin_os.Editor.{edit_max, Editor, shift_right, shift_left, insert_ch, backspace, delete_ch}

pub record IsValid (s : Editor) : Type 0 where
  pub inside : s.cursor ≤ s.len
  pub fits : s.len ≤ edit_max
  pub size : length s.buf ≡ edit_max

-- The text in the buffer.
abbrev pub text : Editor → List ℕ
text s = take s.len s.buf

-- A character put before position `k`, and the character there taken out.
abbrev pub put_in : ℕ → ℕ → List ℕ → List ℕ
put_in k c t = take k t ++ c ∷ drop k t

abbrev pub take_out : ℕ → List ℕ → List ℕ
take_out k t = take k t ++ drop (k + 1) t

get_or-put_in :
    (k c j : ℕ) (t : List ℕ)
    → k ≤ length t
    → get_or (put_in k c t) j 0
      ≡ (if ltb j k then get_or t j 0 else if j == k then c else get_or t (j - 1) 0)
get_or-put_in k c j t h =
    let size : length (take k t) ≡ k = omega (arith, length-take k t) in
    elim (dec_lt j k) [
      | yes lt ↦
          rw (lt→ltb j k lt)
            (get_or-left (take k t) (c ∷ drop k t) j (omega arith) ∙ get_or-take k t j lt)
      | no ge ↦
          let past = get_or-right (take k t) (c ∷ drop k t) j (j - k) (omega arith) in
          elim (ℕ_discrete j k) [
            | yes e ↦
                let start : j - k ≡ 0 = omega arith in
                let same : (j == k) ≡ true = ground (arith, e) in
                rw (le→ltb j k (omega arith), same)
                  (past ∙ ap (λ i. get_or (c ∷ drop k t) i 0) start)
            | no ne ↦
                let start : j - k ≡ suc (j - k - 1) = omega arith in
                rw (le→ltb j k (omega arith), ≢→== j k ne)
                  (past
                    ∙ ap (λ i. get_or (c ∷ drop k t) i 0) start
                    ∙ get_or-drop k t (j - 1) (j - k - 1) (omega arith))
          ]
    ]

get_or-take_out :
    (k j : ℕ) (t : List ℕ)
    → k < length t
    → get_or (take_out k t) j 0 ≡ (if ltb j k then get_or t j 0 else get_or t (j + 1) 0)
get_or-take_out k j t h =
    let size : length (take k t) ≡ k = omega (arith, length-take k t) in
    elim (dec_lt j k) [
      | yes lt ↦
          rw (lt→ltb j k lt)
            (get_or-left (take k t) (drop (k + 1) t) j (omega arith) ∙ get_or-take k t j lt)
      | no ge ↦ rw (le→ltb j k (omega arith)) (
          get_or-right (take k t) (drop (k + 1) t) j (j - k) (omega arith)
          ∙ get_or-drop (k + 1) t (j + 1) (j - k) (omega arith))
    ]

take-shift_right :
    (buf : List ℕ) (n k c : ℕ)
    → k ≤ n
    → n < length buf
    → take (n + 1) (set (shift_right buf n (n - k)) k c) ≡ put_in k c (take n buf)
take-shift_right buf n k c h room =
    let moved = shift_right buf n (n - k) in
    let sized = length-shift_right buf n (n - k) in
    let old : length (take n buf) ≡ n = omega (arith, length-take n buf) in
    let new : length (take (n + 1) (set moved k c)) ≡ n + 1 =
      omega (arith, length-take (n + 1) (set moved k c), length-set moved k c) in
    same_list (take (n + 1) (set moved k c)) (put_in k c (take n buf))
      (omega (
        arith,
        length-append (take k (take n buf)) (c ∷ drop k (take n buf)),
        length-take k (take n buf),
        length-drop k (take n buf),
      ))
      (λ j lt.
        let left = get_or-take (n + 1) (set moved k c) j (omega arith) in
        let put = get_or-set moved k j c 0 (omega arith) in
        let shifted = shift_right_lem buf n (n - k) j (omega arith) room in
        left ∙ put ∙ sides buf n k c j h (omega arith) (get_or moved j 0) shifted old)
  where
    sides :
        (buf : List ℕ) (n k c j : ℕ)
        → k ≤ n
        → j ≤ n
        → (x : ℕ)
        → x ≡ (if ltb (n - (n - k)) j && leb j n then get_or buf (j - 1) 0 else get_or buf j 0)
        → length (take n buf) ≡ n
        → (if j == k then c else x) ≡ get_or (put_in k c (take n buf)) j 0
    sides buf n k c j h le x e old =
        let put = get_or-put_in k c j (take n buf) (omega arith) in
        elim (dec_lt j k) [
          | yes lt ↦ let same = get_or-take n buf j (omega arith) in ground arith
          | no ge ↦ elim (ℕ_discrete j k) [
            | yes at ↦ ground arith
            | no ne ↦ let same = get_or-take n buf (j - 1) (omega arith) in ground arith
          ]
        ]

take-shift_left :
    (buf : List ℕ) (n k : ℕ)
    → k < n
    → n ≤ length buf
    → take (n - 1) (shift_left buf k (n - 1 - k)) ≡ take_out k (take n buf)
take-shift_left buf n k h room =
    let moved = shift_left buf k (n - 1 - k) in
    let sized = length-shift_left buf k (n - 1 - k) in
    let old : length (take n buf) ≡ n = omega (arith, length-take n buf) in
    let new : length (take (n - 1) moved) ≡ n - 1 = omega (arith, length-take (n - 1) moved) in
    same_list (take (n - 1) moved) (take_out k (take n buf))
      (omega (
        arith,
        length-append (take k (take n buf)) (drop (k + 1) (take n buf)),
        length-take k (take n buf),
        length-drop (k + 1) (take n buf),
      ))
      (λ j lt.
        let left = get_or-take (n - 1) moved j (omega arith) in
        let shifted = shift_left_lem buf k (n - 1 - k) j (omega arith) in
        let out = get_or-take_out k j (take n buf) (omega arith) in
        let here = get_or-take n buf j (omega arith) in
        let next = get_or-take n buf (j + 1) (omega arith) in ground arith)

length-text : (s : Editor) → IsValid s → length (text s) ≡ s.len
length-text s v = omega (arith, length-take s.len s.buf, v.size, v.fits)

-- In a valid state with room, `insert_ch` puts the character into the text at the cursor and moves
-- the cursor behind it; the state stays valid.
pub insert_ch_lem :
    (c : ℕ) (s : Editor)
    → IsValid s
    → s.len < edit_max - 1
    → IsValid (insert_ch c s)
      × (text (insert_ch c s) ≡ put_in s.cursor c (text s))
      × ((insert_ch c s).cursor ≡ s.cursor + 1)
unfolding insert_ch
insert_ch_lem c s v room =
    let moved = shift_right s.buf s.len (s.len - s.cursor) in
    let open_ : leb (edit_max - 1) s.len ≡ false = ground (arith, room) in
    rw open_ (
      record {
        inside = omega (arith, v.inside);
        fits = omega arith;
        size =
            length-set moved s.cursor c
            ∙ length-shift_right s.buf s.len (s.len - s.cursor)
            ∙ v.size;
      },
      take-shift_right s.buf s.len s.cursor c v.inside (omega (arith, v.size)),
      refl,
    )

-- In a valid state with the cursor not at the start, `backspace` takes the character before the
-- cursor out of the text and moves the cursor there; the state stays valid.
pub backspace_lem :
    (s : Editor)
    → IsValid s
    → 0 < s.cursor
    → IsValid (backspace s)
      × (text (backspace s) ≡ take_out (s.cursor - 1) (text s))
      × ((backspace s).cursor ≡ s.cursor - 1)
unfolding backspace
backspace_lem s v some_before =
    let before = s.cursor - 1 in
    rw (≢→== s.cursor 0 (omega arith)) (
      record {
        inside = omega (arith, v.inside);
        fits = omega (arith, v.fits);
        size = length-shift_left s.buf before (s.len - 1 - before) ∙ v.size;
      },
      take-shift_left s.buf s.len before (omega (arith, v.inside)) (omega (arith, v.size, v.fits)),
      refl,
    )

-- In a valid state with the cursor before the end, `delete_ch` takes the character at the cursor
-- out of the text and leaves the cursor; the state stays valid.
pub delete_ch_lem :
    (s : Editor)
    → IsValid s
    → s.cursor < s.len
    → IsValid (delete_ch s)
      × (text (delete_ch s) ≡ take_out s.cursor (text s))
      × ((delete_ch s).cursor ≡ s.cursor)
unfolding delete_ch
delete_ch_lem s v some_after =
    let open_ : leb s.len s.cursor ≡ false = ground (arith, some_after) in
    rw open_ (
      record {
        inside = omega arith;
        fits = omega (arith, v.fits);
        size = length-shift_left s.buf s.cursor (s.len - 1 - s.cursor) ∙ v.size;
      },
      take-shift_left s.buf s.len s.cursor some_after (omega (arith, v.size, v.fits)),
      refl,
    )

take_out-put_in : (k c : ℕ) (t : List ℕ) → k ≤ length t → take_out k (put_in k c t) ≡ t
take_out-put_in k c t h =
    let put = put_in k c t in
    let size : length put ≡ length t + 1 =
      omega (arith, length-append (take k t) (c ∷ drop k t), length-take k t, length-drop k t) in
    same_list (take_out k put) t
      (omega (
        arith,
        length-append (take k put) (drop (k + 1) put),
        length-take k put,
        length-drop (k + 1) put,
      ))
      (λ j lt.
        let out = get_or-take_out k j put (omega arith) in
        let at = get_or-put_in k c j t h in
        let after = get_or-put_in k c (j + 1) t h in
        let back : get_or t (j + 1 - 1) 0 ≡ get_or t j 0 = ap (λ i. get_or t i 0) (omega arith) in
        ground arith)

-- In a valid state with room, `backspace` after `insert_ch` gives back the text and the cursor.
backspace-insert_ch :
    (c : ℕ) (s : Editor)
    → IsValid s
    → s.len < edit_max - 1
    → (text (backspace (insert_ch c s)) ≡ text s) × ((backspace (insert_ch c s)).cursor ≡ s.cursor)
backspace-insert_ch c s v room =
    let (v', put, moved) = insert_ch_lem c s v room in
    let (v'', out, back) = backspace_lem (insert_ch c s) v' (omega arith) in
    let here : (insert_ch c s).cursor - 1 ≡ s.cursor = omega arith in
    (
      out
          ∙ ap₂ take_out here put
          ∙ take_out-put_in s.cursor c (text s) (omega (arith, length-text s v, v.inside)),
      back ∙ here,
    )

pub insert_ch-full : (c : ℕ) (s : Editor) → edit_max - 1 ≤ s.len → insert_ch c s ≡ s
unfolding insert_ch
insert_ch-full c s h =
    let full : leb (edit_max - 1) s.len ≡ true = ground (arith, h) in rw full refl

pub backspace-start : (s : Editor) → s.cursor ≡ 0 → backspace s ≡ s
unfolding backspace
backspace-start s e = let start : (s.cursor == 0) ≡ true = ground (arith, e) in rw start refl

pub delete_ch-end : (s : Editor) → s.len ≤ s.cursor → delete_ch s ≡ s
unfolding delete_ch
delete_ch-end s h = let end : leb s.len s.cursor ≡ true = ground (arith, h) in rw end refl
