-- ===== src/Console/Hex.antt =====
-- `console_write_hex` of drivers/console.c: what it prints reads back.
use pumpkin_os.Prelude.{
  ℕ, zero, suc, ◌+◌, ◌*◌, ◌/◌, ◌%◌, ◌^◌, ◌≤◌, ◌<◌, ◌≡◌, refl, sym, ap, ◌∙◌, arith,
}
use pumpkin_os.Prelude.{◌==◌, Bool, leb, leb→le, ==→≡}
use pumpkin_os.Prelude.{List, [], ◌∷◌, length, get_or, ≢→==, all_below, all_below_sound}
use pumpkin_os.Prelude.Bits.{bit_and_mask}
use native.Mathlib.Nat.{pow-suc, div-add-mod, div-div-eq-div-mul}
use pumpkin_os.Console.{
  Console, console_putc, console_write, hex_digits, hex_loop, console_write_hex,
}
use pumpkin_os.Console.Numbers.{digit_value, read}

write_one :
    (c : ℕ) (cs : List ℕ) (s : Console)
    → 0 < c
    → console_write (c ∷ cs) s ≡ console_write cs (console_putc c s)
unfolding console_write
write_one c cs s h = rw (≢→== c 0 (λ e. omega arith)) refl

pow_sixteen : (n : ℕ) → 2 ^ (4 * suc n) ≡ 2 ^ (4 * n) * 16
pow_sixteen n =
    let k = 4 * n in
    let e : 4 * suc n ≡ suc (suc (suc (suc k))) = omega arith in
    ap (λ t. 2 ^ t) e
    ∙ omega (
      arith,
      pow-suc 2 (suc (suc (suc k))),
      pow-suc 2 (suc (suc k)),
      pow-suc 2 (suc k),
      pow-suc 2 k,
    )

combine : (a P x q r b m : ℕ) → P * 16 * q + m ≡ a → P * x + b ≡ a → 16 * q + r ≡ x → m ≡ r * P + b
combine a P x q r b m e f g = grind (arith, f ∙ sym e, ap (λ t. P * t) g)

mod_sixteen : (a P : ℕ) → a % (P * 16) ≡ a / P % 16 * P + a % P
mod_sixteen a P =
    combine a P (a / P) (a / (P * 16)) (a / P % 16) (a % P) (a % (P * 16)) (div-add-mod a (P * 16))
      (div-add-mod a P)
      (ap (λ t. 16 * t + a / P % 16) (sym (div-div-eq-div-mul a P 16)) ∙ div-add-mod (a / P) 16)

-- The characters that the loop of `console_write_hex` prints.
abbrev hex_chars : ℕ → ℕ → List ℕ
hex_chars zero value = []
hex_chars (suc n) value = get_or hex_digits (value / 2 ^ (4 * n) % 16) 0 ∷ hex_chars n value

hex_digit-value :
    (d : ℕ) → d < 16 → (digit_value (get_or hex_digits d 0) ≡ d) × (b'0' ≤ get_or hex_digits d 0)
unfolding all_below
hex_digit-value d h =
    let fits = all_below_sound 16 digit_fits d refl h in
    let starts = all_below_sound 16 digit_starts d refl h in (==→≡ _ _ fits, leb→le _ _ starts)
  where
    digit_fits : ℕ → Bool
    digit_fits x = digit_value (get_or hex_digits x 0) == x

    digit_starts : ℕ → Bool
    digit_starts x = leb b'0' (get_or hex_digits x 0)

hex_loop_lem :
    (n value : ℕ) (s : Console) → hex_loop n value s ≡ console_write (hex_chars n value) s
unfolding hex_loop console_write
hex_loop_lem zero value s = refl
hex_loop_lem (suc n) value s =
    let d = value / 2 ^ (4 * n) % 16 in
    let c = get_or hex_digits d 0 in
    ap (λ x. hex_loop n value (console_putc (get_or hex_digits x 0) s))
      (bit_and_mask 4 (value / 2 ^ (4 * n)))
    ∙ hex_loop_lem n value (console_putc c s)
    ∙ sym (write_one c (hex_chars n value) s (omega (arith, (hex_digit-value d (omega arith)).1)))

hex_chars-reads :
    (n value acc : ℕ) → read 16 acc (hex_chars n value) ≡ acc * 2 ^ (4 * n) + value % 2 ^ (4 * n)
hex_chars-reads zero value acc = omega arith
hex_chars-reads (suc n) value acc =
    let d = value / 2 ^ (4 * n) % 16 in
    let P = 2 ^ (4 * n) in
    hex_chars-reads n value (acc * 16 + digit_value (get_or hex_digits d 0))
    ∙ ap (λ x. (acc * 16 + x) * P + value % P) (hex_digit-value d (omega arith)).0
    ∙ regroup acc d P (value % P)
    ∙ sym (
        ap (λ t. acc * t + value % t) (pow_sixteen n)
        ∙ ap (λ t. acc * (P * 16) + t) (mod_sixteen value P))
  where
    regroup : (a d P m : ℕ) → (a * 16 + d) * P + m ≡ a * (P * 16) + (d * P + m)
    regroup a d P m = grind arith

length-hex_chars : (n value : ℕ) → length (hex_chars n value) ≡ n
length-hex_chars zero value = refl
length-hex_chars (suc n) value = ap suc (length-hex_chars n value)

-- For a 32-bit number, `console_write_hex` prints what `console_write` prints of 0x and eight
-- characters, which read back in base 16 as the number.
pub console_write_hex_lem :
    (value : ℕ) (s : Console)
    → value < 2 ^ 32
    → (digits : List ℕ) × (console_write_hex value s ≡ console_write (b'0' ∷ b'x' ∷ digits) s)
      × (length digits ≡ 8)
      × (read 16 0 digits ≡ value)
unfolding console_write_hex console_write
console_write_hex_lem value s h = (
  hex_chars 8 value,
  hex_loop_lem 8 value (console_write (b'0' ∷ b'x' ∷ []) s),
  length-hex_chars 8 value,
  hex_chars-reads 8 value 0 ∙ omega arith,
)
