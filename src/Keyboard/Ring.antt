-- ===== src/Keyboard/Ring.antt =====
-- The ring buffer of drivers/keyboard.c as a queue of at most 127 characters.
use pumpkin_os.Prelude.{
  ℕ, zero, suc, ◌+◌, ◌-◌, ◌%◌, ◌≤◌, ◌<◌, ◌≡◌, ◌≢◌, refl, arith, ap, ap₂, ◌∙◌, sym, subst,
}
use pumpkin_os.Prelude.{
  List, [], ◌∷◌, ◌++◌, length, get_or, set, get_or-set_self, get_or-set_ne, length-set,
}
use pumpkin_os.Prelude.{ltb, true, false, if◌then◌else◌, lt→ltb, le→ltb, ≢→==, ℕ_discrete}
use pumpkin_os.Keyboard.{Kbd, kbd_enqueue, take_char}

-- The indices stay inside the buffer.
pub record IsValid (s : Kbd) : Type 0 where
  pub size : length s.buf ≡ 128
  pub head_in : s.head < 128
  pub tail_in : s.tail < 128

-- `n` characters from index `i` on, around the end.
pub read : List ℕ → ℕ → ℕ → List ℕ
read buf i zero = []
read buf i (suc n) = get_or buf i 0 ∷ read buf ((i + 1) % 128) n

abbrev pub waiting : Kbd → ℕ
waiting s = (s.head + 128 - s.tail) % 128

-- The characters that wait in the buffer, the oldest first.
abbrev pub queued : Kbd → List ℕ
queued s = read s.buf s.tail (waiting s)

-- A queue of at most 127: a character more, or the same when it is full.
abbrev pub accept : ℕ → List ℕ → List ℕ
accept c q = if ltb (length q) 127 then q ++ c ∷ [] else q

length-read : (buf : List ℕ) (i n : ℕ) → length (read buf i n) ≡ n
unfolding read
length-read buf i zero = refl
length-read buf i (suc n) = ap suc (length-read buf ((i + 1) % 128) n)

pub length-queued : (s : Kbd) → length (queued s) ≡ waiting s
length-queued s = length-read s.buf s.tail (waiting s)

-- A write at an index that is not among those read changes nothing.
read-set :
    (buf : List ℕ) (i j c n : ℕ)
    → i < 128
    → j < 128
    → n ≤ (j + 128 - i) % 128
    → read (set buf j c) i n ≡ read buf i n
unfolding read
read-set buf i j c zero hi hj far = refl
read-set buf i j c (suc n) hi hj far =
    ap₂ (λ x r. x ∷ r) (get_or-set_ne buf j i c 0 (omega arith))
      (read-set buf ((i + 1) % 128) j c n (omega arith) hj (omega arith))

read-suc :
    (buf : List ℕ) (i n : ℕ)
    → i < 128
    → read buf i (suc n) ≡ read buf i n ++ get_or buf ((i + n) % 128) 0 ∷ []
unfolding read
read-suc buf i zero h = ap (λ k. get_or buf k 0 ∷ []) (omega arith)
read-suc buf i (suc n) h =
    ap (λ r. get_or buf i 0 ∷ r)
      (read-suc buf ((i + 1) % 128) n (omega arith)
        ∙ ap (λ k. read buf ((i + 1) % 128) n ++ get_or buf k 0 ∷ []) (omega arith))

abbrev next : Kbd → ℕ
next s = (s.head + 1) % 128

-- The state after a character that has room.
abbrev put : ℕ → Kbd → Kbd
put c s = record s { buf = set s.buf s.head c; head = next s }

enqueue-full : (c : ℕ) (s : Kbd) → next s ≡ s.tail → kbd_enqueue c s ≡ s
unfolding kbd_enqueue
enqueue-full c s e = ground (arith, e)

enqueue-room : (c : ℕ) (s : Kbd) → next s ≢ s.tail → kbd_enqueue c s ≡ put c s
unfolding kbd_enqueue
enqueue-room c s ne = rw (≢→== _ _ ne) refl

pub kbd_enqueue-IsValid : (c : ℕ) (s : Kbd) → IsValid s → IsValid (kbd_enqueue c s)
kbd_enqueue-IsValid c s v = elim (ℕ_discrete (next s) s.tail) [
  | yes e ↦ subst IsValid (sym (enqueue-full c s e)) v
  | no ne ↦ subst IsValid (sym (enqueue-room c s ne)) (record {
    size = length-set s.buf s.head c ∙ v.size;
    head_in = omega arith;
    tail_in = v.tail_in;
  })
]

-- With room, the character goes behind the others.
queued-put : (c : ℕ) (s : Kbd) → IsValid s → next s ≢ s.tail → queued (put c s) ≡ queued s ++ c ∷ []
queued-put c s v ne =
    let n = waiting s in
    let last : (s.tail + n) % 128 ≡ s.head = omega (arith, v.head_in, v.tail_in) in
    let longer : (next s + 128 - s.tail) % 128 ≡ suc n = omega (arith, v.head_in, v.tail_in) in
    ap (read (set s.buf s.head c) s.tail) longer
    ∙ read-suc (set s.buf s.head c) s.tail n v.tail_in
    ∙ ap₂ (λ q x. q ++ x ∷ []) (read-set s.buf s.tail s.head c n v.tail_in v.head_in (omega arith))
        (ap (λ k. get_or (set s.buf s.head c) k 0) last
          ∙ get_or-set_self s.buf s.head c 0 (omega (arith, v.size, v.head_in)))

-- In a valid state `kbd_enqueue` puts the character behind the others, and drops it where 127 wait
-- already.
pub queued-kbd_enqueue :
    (c : ℕ) (s : Kbd) → IsValid s → queued (kbd_enqueue c s) ≡ accept c (queued s)
queued-kbd_enqueue c s v = elim (ℕ_discrete (next s) s.tail) [
  | yes e ↦
      let full : ltb (length (queued s)) 127 ≡ false =
        le→ltb _ _ (omega (arith, length-queued s, v.head_in, v.tail_in)) in
      ap queued (enqueue-full c s e) ∙ rw full refl
  | no ne ↦
      let room : ltb (length (queued s)) 127 ≡ true =
        lt→ltb _ _ (omega (arith, length-queued s, v.head_in, v.tail_in)) in
      ap queued (enqueue-room c s ne) ∙ queued-put c s v ne ∙ rw room refl
]

-- The reader takes the oldest character and leaves the others.
pub take_char_lem :
    (s : Kbd) → IsValid s → s.head ≢ s.tail → queued s ≡ (take_char s).0 ∷ queued (take_char s).1
unfolding take_char read
take_char_lem s v ne =
    let fewer : waiting s ≡ suc ((s.head + 128 - (s.tail + 1) % 128) % 128) =
      omega (arith, v.head_in, v.tail_in) in
    ap (read s.buf s.tail) fewer

pub take_char-IsValid : (s : Kbd) → IsValid s → IsValid (take_char s).1
unfolding take_char
take_char-IsValid s v = record { size = v.size; head_in = v.head_in; tail_in = omega arith }

-- Nothing waits exactly when the two indices meet.
pub queued-empty : (s : Kbd) → IsValid s → s.head ≡ s.tail → queued s ≡ []
unfolding read
queued-empty s v e =
    let none_left : waiting s ≡ 0 = omega (arith, v.head_in) in ap (read s.buf s.tail) none_left
