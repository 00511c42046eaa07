-- ===== src/Keyboard/Sequence.antt =====
-- Sequences of scan codes and reads on drivers/keyboard.c, against a queue of at most 127
-- characters.
use pumpkin_os.Prelude.{ℕ, ◌+◌, ◌≤◌, ◌<◌, ◌≡◌, ◌≢◌, refl, arith, ap, ap₂, ◌∙◌, sym, true}
use pumpkin_os.Prelude.{
  List, [], ◌∷◌, ◌++◌, length, Option, none, some, if◌then◌else◌, ltb, ◌==◌, ≢→==, lt→ltb,
  ℕ_discrete,
}
use pumpkin_os.Prelude.{append-nil, append_assoc, length-append, Bool-cases, inl, inr}
use pumpkin_os.Keyboard.{Kbd, keyboard_irq, take_char, keyboard_haschar, keyboard_getchar}
use pumpkin_os.Keyboard.Ring.{IsValid, queued, take_char_lem, take_char-IsValid, queued-empty}
use pumpkin_os.Keyboard.Decode.{Keys, keys, keys_after, typed, accept_typed, keyboard_irq-Handles}

abbrev pub AreBytes : List ℕ → Type 0
AreBytes [] = Unit
AreBytes (sc ∷ scs) = (sc < 256) × AreBytes scs

-- A reader of the queue: it waits for the first byte that types a character. The result has the
-- character, the bytes still to come, the modifiers and the queue.
pub reader : List ℕ → Keys → List ℕ → Option (ℕ × List ℕ × Keys × List ℕ)
reader scs k (c ∷ q) = some (c, scs, k, q)
reader [] k [] = none
reader (sc ∷ scs) k [] = reader scs (keys_after sc k) (accept_typed (typed sc k) [])

-- What a reader sees of a result of `keyboard_getchar`.
abbrev pub view : Option (ℕ × List ℕ × Kbd) → Option (ℕ × List ℕ × Keys × List ℕ)
view none = none
view (some (c, scs, s)) = some (c, scs, keys s, queued s)

keys-take_char : (s : Kbd) → keys (take_char s).1 ≡ keys s
unfolding take_char
keys-take_char s = refl

reader-some :
    (scs : List ℕ) (k : Keys) (q q' : List ℕ) (c : ℕ)
    → q ≡ c ∷ q'
    → reader scs k q ≡ some (c, scs, k, q')
unfolding reader
reader-some [] k q q' c e = rw e refl
reader-some (sc ∷ scs) k q q' c e = rw e refl

-- A character that waits is read at once.
ready :
    (scs : List ℕ) (s : Kbd)
    → IsValid s
    → s.head ≢ s.tail
    → view (some ((take_char s).0, scs, (take_char s).1)) ≡ reader scs (keys s) (queued s)
ready scs s v ne =
    ap (λ k. some ((take_char s).0, scs, k, queued (take_char s).1)) (keys-take_char s)
    ∙ sym (reader-some scs (keys s) (queued s) _ _ (take_char_lem s v ne))

-- In a valid state, for bytes that still arrive, `keyboard_getchar` reads what a reader of the
-- queue reads: it returns the oldest character, having waited for the first byte that types one
-- where the queue was empty, and sleeps on when no byte types one.
keyboard_getchar_lem :
    (scs : List ℕ) (s : Kbd)
    → AreBytes scs
    → IsValid s
    → view (keyboard_getchar scs s) ≡ reader scs (keys s) (queued s)
unfolding keyboard_getchar reader
keyboard_getchar_lem [] s b v = elim (ℕ_discrete s.head s.tail) [
  | yes e ↦
      let same : (s.head == s.tail) ≡ true = ground (arith, e) in
      rw same (sym (ap (reader [] (keys s)) (queued-empty s v e)))
  | no ne ↦ rw (≢→== _ _ ne) (ready [] s v ne)
]
keyboard_getchar_lem (sc ∷ scs) s (small, b) v = elim (ℕ_discrete s.head s.tail) [
  | yes e ↦
      let same : (s.head == s.tail) ≡ true = ground (arith, e) in
      let (v', k, q) = keyboard_irq-Handles sc s small v in
      rw same (
        keyboard_getchar_lem scs (keyboard_irq sc s) b v'
        ∙ ap₂ (reader scs) k (q ∙ ap (accept_typed (typed sc (keys s))) (queued-empty s v e))
        ∙ sym (ap (reader (sc ∷ scs) (keys s)) (queued-empty s v e)))
  | no ne ↦ rw (≢→== _ _ ne) (ready (sc ∷ scs) s v ne)
]

-- What can happen to the buffer: a byte from the keyboard, or a poll by the reader.
pub data Event : Type 0 where
  scanned : ℕ → Event
  polled : Event

abbrev pub AreScans : List Event → Type 0
AreScans [] = Unit
AreScans (scanned sc ∷ es) = (sc < 256) × AreScans es
AreScans (polled ∷ es) = AreScans es

-- The characters that the polls return, `keyboard_haschar` before each read.
pub run : List Event → Kbd → List ℕ
run [] s = []
run (scanned sc ∷ es) s = run es (keyboard_irq sc s)
run (polled ∷ es) s =
    let got = (take_char s).0 ∷ run es (take_char s).1 in
    let on = run es s in if keyboard_haschar s then got else on

-- The same on a queue.
pub play : List Event → Keys → List ℕ → List ℕ
play [] k q = []
play (scanned sc ∷ es) k q = play es (keys_after sc k) (accept_typed (typed sc k) q)
play (polled ∷ es) k [] = play es k []
play (polled ∷ es) k (c ∷ q) = c ∷ play es k q

play-polled :
    (es : List Event) (k : Keys) (q q' : List ℕ) (c : ℕ)
    → q ≡ c ∷ q'
    → play (polled ∷ es) k q ≡ c ∷ play es k q'
unfolding play
play-polled es k q q' c e = rw e refl

-- From a valid state, however bytes and polls interleave, the polls return what they return on a
-- queue of at most 127 characters, first in first out.
pub run-play :
    (es : List Event) (s : Kbd) → AreScans es → IsValid s → run es s ≡ play es (keys s) (queued s)
unfolding run play keyboard_haschar
run-play [] s b v = refl
run-play (scanned sc ∷ es) s (small, b) v =
    let (v', k, q) = keyboard_irq-Handles sc s small v in
    run-play es (keyboard_irq sc s) b v' ∙ ap₂ (play es) k q
run-play (polled ∷ es) s b v = elim (ℕ_discrete s.head s.tail) [
  | yes e ↦
      let same : (s.head == s.tail) ≡ true = ground (arith, e) in
      rw same (
        run-play es s b v
        ∙ ap (play es (keys s)) (queued-empty s v e)
        ∙ sym (ap (play (polled ∷ es) (keys s)) (queued-empty s v e)))
  | no ne ↦ rw (≢→== _ _ ne) (
      ap (λ r. (take_char s).0 ∷ r)
        (run-play es (take_char s).1 b (take_char-IsValid s v)
          ∙ ap (λ k. play es k (queued (take_char s).1)) (keys-take_char s))
      ∙ sym (play-polled es (keys s) (queued s) _ _ (take_char_lem s v ne)))
]

pub irqs : List ℕ → Kbd → Kbd
irqs [] s = s
irqs (sc ∷ scs) s = irqs scs (keyboard_irq sc s)

-- All that the bytes type.
pub typed_all : List ℕ → Keys → List ℕ
typed_all [] k = []
typed_all (sc ∷ scs) k =
    let more = typed_all scs (keys_after sc k) in
    if typed sc k == 0 then more else typed sc k ∷ more

-- From a valid state, as long as the waiting characters and the bytes are at most 127 together,
-- nothing that is typed is lost.
irqs-typed_all :
    (scs : List ℕ) (s : Kbd)
    → AreBytes scs
    → IsValid s
    → length (queued s) + length scs ≤ 127
    → queued (irqs scs s) ≡ queued s ++ typed_all scs (keys s)
unfolding irqs typed_all
irqs-typed_all [] s b v h = sym (append-nil (queued s))
irqs-typed_all (sc ∷ scs) s (small, b) v h =
    let (v', k, q) = keyboard_irq-Handles sc s small v in
    let room : ltb (length (queued s)) 127 ≡ true = lt→ltb _ _ (omega arith) in
    elim (Bool-cases (typed sc (keys s) == 0)) [
      | inl z ↦
          let same : queued (keyboard_irq sc s) ≡ queued s = q ∙ rw z refl in
          rw z (
            irqs-typed_all scs (keyboard_irq sc s) b v' (omega (arith, ap length same))
            ∙ ap₂ (λ q k. q ++ typed_all scs k) same k)
      | inr z ↦
          let c = typed sc (keys s) in
          let more : queued (keyboard_irq sc s) ≡ queued s ++ c ∷ [] = q ∙ rw (z, room) refl in
          let size = length-append (queued s) (c ∷ []) in
          rw z (
            irqs-typed_all scs (keyboard_irq sc s) b v' (omega (arith, ap length more))
            ∙ ap₂ (λ q k. q ++ typed_all scs k) more k
            ∙ append_assoc (queued s) (c ∷ []) (typed_all scs (keys_after sc (keys s))))
    ]
