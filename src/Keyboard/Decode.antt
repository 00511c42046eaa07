-- ===== src/Keyboard/Decode.antt =====
-- What drivers/keyboard.c makes of a scan code: the modifier keys, and the character that is typed.
use pumpkin_os.Prelude.{
  ℕ, ◌-◌, ◌*◌, ◌/◌, ◌%◌, ◌^◌, ◌<◌, ◌≡◌, refl, arith, ap, ◌∙◌, sym, subst, bit_and,
}
use pumpkin_os.Prelude.{List, Bool, true, false, not, ltb, ◌==◌, if◌then◌else◌}
use pumpkin_os.Prelude.{Bool-cases, inl, inr, ◌⊎◌, ==→≡, ≢→==, ltb→lt, ltb→le}
use pumpkin_os.Prelude.Bits.{bit_and_high, bit_and_mask}
use pumpkin_os.Keyboard.{Kbd, key_char, is_shift, extended_key, kbd_enqueue}
use pumpkin_os.Keyboard.{extended_irq, press_irq, keyboard_irq}
use pumpkin_os.Keyboard.Ring.{IsValid, kbd_enqueue-IsValid, queued, accept, queued-kbd_enqueue}

-- The keys that change what others mean.
pub record Keys : Type 0 where
  pub shift : Bool
  pub caps : Bool
  pub extended : Bool

abbrev pub keys : Kbd → Keys
keys s = record { shift = s.shift_down; caps = s.caps_lock; extended = s.extended }

-- The modifiers after a byte: codes from 128 on are releases, 0xE0 is a prefix.
pub keys_after : ℕ → Keys → Keys
keys_after sc k =
    if sc == 0xE0
    then record k { extended = true }
    else if k.extended
    then record k { extended = false }
    else if ltb sc 128
    then if is_shift sc
      then record k { shift = true }
      else if sc == 0x3A
      then record k { caps = not k.caps }
      else k
    else if is_shift (sc - 128)
    then record k { shift = false }
    else k

-- The character that a byte types, 0 for none: only presses type.
pub typed : ℕ → Keys → ℕ
typed sc k =
    if ltb sc 128 then if k.extended then extended_key sc else key_char k.shift k.caps sc else 0

-- The queue after a character, where 0 is none.
abbrev pub accept_typed : ℕ → List ℕ → List ℕ
accept_typed c q = if c == 0 then q else accept c q

top_bit : (sc : ℕ) → sc < 256 → (bit_and sc 0x80 == 0) ≡ ltb sc 128
top_bit sc h =
    let high : bit_and sc 0x80 ≡ bit_and (sc / 2 ^ 7) 1 * 2 ^ 7 = bit_and_high 7 sc 1 in
    let low : bit_and (sc / 2 ^ 7) 1 ≡ sc / 2 ^ 7 % 2 ^ 1 = bit_and_mask 1 (sc / 2 ^ 7) in
    ground arith

low_bits : (sc : ℕ) → bit_and sc 0x7F ≡ sc % 128
low_bits sc = bit_and_mask 7 sc

keys-kbd_enqueue : (c : ℕ) (s : Kbd) → keys (kbd_enqueue c s) ≡ keys s
unfolding kbd_enqueue
keys-kbd_enqueue c s = ground arith

-- The handler without its bit operations.
abbrev irq : ℕ → Kbd → Kbd
irq sc s =
    if sc == 0xE0
    then record s { extended = true }
    else if s.extended
    then if ltb sc 128
      then if extended_key sc == 0
        then record s { extended = false }
        else kbd_enqueue (extended_key sc) (record s { extended = false })
      else record s { extended = false }
    else if ltb sc 128
    then if is_shift sc
      then record s { shift_down = true }
      else if sc == 0x3A
      then record s { caps_lock = not s.caps_lock }
      else if key_char s.shift_down s.caps_lock sc == 0
      then s
      else kbd_enqueue (key_char s.shift_down s.caps_lock sc) s
    else if is_shift (sc - 128)
    then record s { shift_down = false }
    else s

keyboard_irq-irq : (sc : ℕ) (s : Kbd) → sc < 256 → keyboard_irq sc s ≡ irq sc s
unfolding keyboard_irq extended_irq press_irq
keyboard_irq-irq sc s h =
    let top = top_bit sc h in
    let low = low_bits sc in
    elim (Bool-cases (ltb sc 128)) [
      | inl e ↦ rw (top, e) refl
      | inr e ↦
          let make : bit_and sc 0x7F ≡ sc - 128 = omega (arith, low, ltb→le sc 128 e) in
          rw (top, e, make) refl
    ]

-- One byte: the state stays valid, the modifiers change as they should, and the typed character
-- joins the queue.
abbrev pub Handles : ℕ → Kbd → Kbd → Type 0
Handles sc s s' =
    IsValid s'
    × (keys s' ≡ keys_after sc (keys s))
    × (queued s' ≡ accept_typed (typed sc (keys s)) (queued s))

same_cursors :
    {s : Kbd} (x c e : Bool)
    → IsValid s
    → IsValid (record s { shift_down = x; caps_lock = c; extended = e })
same_cursors x c e v = record { size = v.size; head_in = v.head_in; tail_in = v.tail_in }

-- A key with the character `c`, 0 for none.
press :
    (c : ℕ) (s : Kbd)
    → IsValid s
    → (s' : Kbd) → s' ≡ (if c == 0 then s else kbd_enqueue c s)
    → IsValid s' × (keys s' ≡ keys s) × (queued s' ≡ accept_typed c (queued s))
press c s v s' e = elim (Bool-cases (c == 0)) [
  | inl z ↦
      let same : s' ≡ s = e ∙ rw z refl in
      rw z (subst IsValid (sym same) v, ap keys same, ap queued same)
  | inr z ↦
      let new : s' ≡ kbd_enqueue c s = e ∙ rw z refl in
      rw z (
        subst IsValid (sym new) (kbd_enqueue-IsValid c s v),
        ap keys new ∙ keys-kbd_enqueue c s,
        ap queued new ∙ queued-kbd_enqueue c s v,
      )
]

irq-release : (sc : ℕ) (s : Kbd) → IsValid s → ltb sc 128 ≡ false → Handles sc s (irq sc s)
unfolding keys_after typed
irq-release sc s v big = elim (Bool-cases (sc == 0xE0)) [
  | inl e ↦ rw (big, e) (same_cursors s.shift_down s.caps_lock true v, refl, refl)
  | inr e ↦ elim (Bool-cases s.extended) [
    | inl x ↦ rw (big, e, x) (same_cursors s.shift_down s.caps_lock false v, refl, refl)
    | inr x ↦ elim (Bool-cases (is_shift (sc - 128))) [
      | inl k ↦ rw (big, e, x, k) (same_cursors false s.caps_lock false v, refl, refl)
      | inr k ↦ rw (big, e, x, k) (same_cursors s.shift_down s.caps_lock false v, refl, refl)
    ]
  ]
]

silent_at :
    (shift caps : Bool)
    → (key_char shift caps 0x2A ≡ 0)
      × (key_char shift caps 0x36 ≡ 0)
      × (key_char shift caps 0x3A ≡ 0)
unfolding key_char
silent_at true caps = (refl, refl, refl)
silent_at false caps = (refl, refl, refl)

is_shift-cases : (sc : ℕ) → is_shift sc ≡ true → (sc ≡ 0x2A) ⊎ (sc ≡ 0x36)
is_shift-cases sc e = ground arith

silent_shift : (shift caps : Bool) (sc : ℕ) → is_shift sc ≡ true → key_char shift caps sc ≡ 0
silent_shift shift caps sc e =
    let (left, right, lock) = silent_at shift caps in
    elim (is_shift-cases sc e) [
      | inl q ↦ ap (key_char shift caps) q ∙ left
      | inr q ↦ ap (key_char shift caps) q ∙ right
    ]

silent_caps : (shift caps : Bool) (sc : ℕ) → (sc == 0x3A) ≡ true → key_char shift caps sc ≡ 0
silent_caps shift caps sc e =
    let (left, right, lock) = silent_at shift caps in
    ap (key_char shift caps) (==→≡ sc 0x3A e) ∙ lock

irq-press : (sc : ℕ) (s : Kbd) → IsValid s → ltb sc 128 ≡ true → Handles sc s (irq sc s)
unfolding keys_after typed
irq-press sc s v small =
    let plain : (sc == 0xE0) ≡ false = ≢→== sc 0xE0 (omega (arith, ltb→lt sc 128 small)) in
    let s' = record s { extended = false } in
    elim (Bool-cases s.extended) [
      | inl x ↦
          rw (small, plain, x)
            (press (extended_key sc) s' (same_cursors s.shift_down s.caps_lock false v) _ refl)
      | inr x ↦ elim (Bool-cases (is_shift sc)) [
        | inl k ↦
            rw (small, plain, x, k, silent_shift s.shift_down s.caps_lock sc k)
              (same_cursors true s.caps_lock false v, refl, refl)
        | inr k ↦ elim (Bool-cases (sc == 0x3A)) [
          | inl c ↦
              rw (small, plain, x, k, c, silent_caps s.shift_down s.caps_lock sc c)
                (same_cursors s.shift_down (not s.caps_lock) false v, refl, refl)
          | inr c ↦
              rw (small, plain, x, k, c)
                (press (key_char s.shift_down s.caps_lock sc) s'
                  (same_cursors s.shift_down s.caps_lock false v) _ refl)
        ]
      ]
    ]

-- In a valid state the handler keeps the indices inside the buffer; the byte changes the modifiers
-- as `keys_after` says, and the character that it types, if any, joins the queue unless 127 wait.
pub keyboard_irq-Handles :
    (sc : ℕ) (s : Kbd) → sc < 256 → IsValid s → Handles sc s (keyboard_irq sc s)
keyboard_irq-Handles sc s h v =
    subst (Handles sc s) (sym (keyboard_irq-irq sc s h))
      (elim (Bool-cases (ltb sc 128)) [ inl e ↦ irq-press sc s v e | inr e ↦ irq-release sc s v e ])
