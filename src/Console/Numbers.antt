-- ===== src/Console/Numbers.antt =====
-- `console_write_dec` of drivers/console.c: what it prints reads back.
use pumpkin_os.Prelude.{
  ℕ, zero, suc, ◌+◌, ◌-◌, ◌*◌, ◌/◌, ◌%◌, ◌^◌, ◌≤◌, ◌<◌, ◌≡◌, ◌≢◌, refl, sym, ap, ◌∙◌, inl, inr,
  arith,
}
use pumpkin_os.Prelude.{ltb, ◌==◌, if◌then◌else◌, if_cases, ltb→lt, ltb→le, Bool-cases, ==→≡, ==→≢}
use pumpkin_os.Prelude.{List, [], ◌∷◌, ◌++◌, length, length-append, get_or, ≢→==}
use native.Mathlib.Nat.{pow-suc}
use pumpkin_os.Console.{
  Console, console_putc, console_write, dec_buffer, write_back, console_write_dec,
}

-- The value of a digit, decimal or an upper-case hexadecimal one.
abbrev pub digit_value : ℕ → ℕ
digit_value c = if ltb c b'A' then c - b'0' else c - b'A' + 10

-- Horner's rule in any base.
abbrev pub read : ℕ → ℕ → List ℕ → ℕ
read base acc [] = acc
read base acc (c ∷ cs) = read base (acc * base + digit_value c) cs

-- Characters that are decimal digits, or digits of either base.
abbrev pub AllDigits : List ℕ → Type 0
AllDigits [] = Unit
AllDigits (c ∷ cs) = (b'0' ≤ c) × (c ≤ b'9') × AllDigits cs

abbrev rev : List ℕ → List ℕ
rev [] = []
rev (c ∷ cs) = rev cs ++ c ∷ []

read-append :
    (base acc : ℕ) (xs : List ℕ) (c : ℕ)
    → read base acc (xs ++ c ∷ []) ≡ read base acc xs * base + digit_value c
read-append base acc [] c = refl
read-append base acc (x ∷ xs) c = read-append base (acc * base + digit_value x) xs c

AllDigits-append :
    (xs : List ℕ) (c : ℕ) → AllDigits xs → b'0' ≤ c → c ≤ b'9' → AllDigits (xs ++ c ∷ [])
AllDigits-append [] c d l u = (l, u, tt)
AllDigits-append (x ∷ xs) c (a, b, d) l u = (a, b, AllDigits-append xs c d l u)

write-append :
    (xs : List ℕ) (c : ℕ) (s : Console)
    → AllDigits xs
    → b'0' ≤ c
    → console_write (xs ++ c ∷ []) s ≡ console_putc c (console_write xs s)
unfolding console_write
write-append [] c s d l = rw (≢→== c 0 (λ e. omega arith)) refl
write-append (x ∷ xs) c s (a, b, d) l =
    rw (≢→== x 0 (λ e. omega arith)) (write-append xs c (console_putc x s) d l)

get_or-push : (xs : List ℕ) (c : ℕ) → 0 < length xs → get_or (xs ++ c ∷ []) 0 0 ≡ get_or xs 0 0
get_or-push [] c h = absurd (omega arith)
get_or-push (x ∷ xs) c h = refl

digit_value_lem : (d : ℕ) → d < 10 → digit_value (b'0' + d) ≡ d
digit_value_lem d h = ground arith

-- The buffer of `console_write_dec`, read from its end.
dec_buffer-AllDigits : (n value : ℕ) → AllDigits (rev (dec_buffer n value))
unfolding dec_buffer
dec_buffer-AllDigits zero value = tt
dec_buffer-AllDigits (suc n) value =
    if_cases (λ b. AllDigits (rev b)) (value == 0) []
      ((b'0' + value % 10) ∷ dec_buffer n (value / 10)) (λ e. tt)
      (λ e.
        AllDigits-append _ (b'0' + value % 10) (dec_buffer-AllDigits n (value / 10)) (omega arith)
          (omega arith))

dec_buffer-reads : (n value : ℕ) → value ≤ n → read 10 0 (rev (dec_buffer n value)) ≡ value
unfolding dec_buffer
dec_buffer-reads zero value h = omega arith
dec_buffer-reads (suc n) value h =
    let last = b'0' + value % 10 in
    if_cases (λ b. read 10 0 (rev b) ≡ value) (value == 0) [] (last ∷ dec_buffer n (value / 10))
      (λ e. omega (arith, ==→≡ _ _ e))
      (λ e. omega (
        arith,
        read-append 10 0 (rev (dec_buffer n (value / 10))) last,
        digit_value_lem (value % 10) (omega arith),
        dec_buffer-reads n (value / 10) (omega (arith, ==→≢ _ _ e)),
      ))

dec_buffer-short : (n value k : ℕ) → value < 10 ^ k → length (rev (dec_buffer n value)) ≤ k
unfolding dec_buffer
dec_buffer-short zero value k h = omega arith
dec_buffer-short (suc n) value zero h = let e : value ≡ 0 = omega arith in rw e (omega arith)
dec_buffer-short (suc n) value (suc k) h =
    let last = b'0' + value % 10 in
    if_cases (λ b. length (rev b) ≤ suc k) (value == 0) [] (last ∷ dec_buffer n (value / 10))
      (λ e. omega arith)
      (λ e. omega (
        arith,
        length-append (rev (dec_buffer n (value / 10))) (last ∷ []),
        dec_buffer-short n (value / 10) k (omega (arith, pow-suc 10 k)),
      ))

dec_buffer-none : (n : ℕ) → dec_buffer n 0 ≡ []
unfolding dec_buffer
dec_buffer-none zero = refl
dec_buffer-none (suc n) = refl

-- The buffer of a positive number is not empty, and its first digit in print is not 0.
dec_buffer-starts :
    (n value : ℕ)
    → value ≤ n
    → 0 < value
    → (0 < length (rev (dec_buffer n value))) × (get_or (rev (dec_buffer n value)) 0 0 ≢ b'0')
unfolding dec_buffer
dec_buffer-starts zero value h p = absurd (omega arith)
dec_buffer-starts (suc n) value h p =
    let last = b'0' + value % 10 in
    let more = rev (dec_buffer n (value / 10)) in
    if_cases (λ b. (0 < length (rev b)) × (get_or (rev b) 0 0 ≢ b'0')) (value == 0) []
      (last ∷ dec_buffer n (value / 10)) (λ e. absurd (omega (arith, ==→≡ _ _ e)))
      (λ e. (
        omega (arith, length-append more (last ∷ [])),
        elim (Bool-cases (ltb value 10)) as (λ _. get_or (more ++ last ∷ []) 0 0 ≢ b'0') [
          | inl small ↦
              let z : rev (dec_buffer n (value / 10)) ≡ [] =
                ap (λ t. rev (dec_buffer n t)) (omega (arith, ltb→lt _ _ small))
                ∙ ap rev (dec_buffer-none n) in
              λ q.
                absurd (
                  omega
                    (arith, ltb→lt _ _ small, ap (λ t. get_or (t ++ last ∷ []) 0 0) (sym z) ∙ q))
          | inr large ↦
              let (some_more, first) =
                dec_buffer-starts n (value / 10) (omega arith) (omega (arith, ltb→le _ _ large)) in
              λ q. first (sym (get_or-push more last some_more) ∙ q)
        ],
      ))

AllDigits-split : (xs : List ℕ) (c : ℕ) → AllDigits (xs ++ c ∷ []) → AllDigits xs × (b'0' ≤ c)
AllDigits-split [] c (l, u, d) = (tt, l)
AllDigits-split (x ∷ xs) c (a, b, d) = let (ds, l) = AllDigits-split xs c d in ((a, b, ds), l)

put_back_lem :
    (buf : List ℕ) (s : Console)
    → AllDigits (rev buf)
    → write_back buf s ≡ console_write (rev buf) s
unfolding write_back console_write
put_back_lem [] s d = refl
put_back_lem (c ∷ buf) s d =
    let (ds, l) = AllDigits-split (rev buf) c d in
    ap (console_putc c) (put_back_lem buf s ds) ∙ sym (write-append (rev buf) c s ds l)

-- What the console shows of a number: a string of one to ten decimal digits that reads back as it.
pub record Shows (value : ℕ) (s t : Console) : Type 0 where
  pub digits : List ℕ
  pub written : t ≡ console_write digits s
  pub decimal : AllDigits digits
  pub reads : read 10 0 digits ≡ value
  pub some : 1 ≤ length digits
  pub fits : length digits ≤ 10
  pub starts : 0 < value → get_or digits 0 0 ≢ b'0'

show_buffer :
    (value : ℕ) (s : Console)
    → 0 < value
    → value < 2 ^ 32
    → Shows value s (write_back (dec_buffer value value) s)
show_buffer value s p h =
    let (some_digits, first) = dec_buffer-starts value value (omega arith) p in
    record {
      digits = rev (dec_buffer value value);
      written = put_back_lem (dec_buffer value value) s (dec_buffer-AllDigits value value);
      decimal = dec_buffer-AllDigits value value;
      reads = dec_buffer-reads value value (omega arith);
      some = some_digits;
      fits = dec_buffer-short value value 10 (omega arith);
      starts = λ _. first;
    }

zero_shown : (s : Console) → console_putc b'0' s ≡ console_write (b'0' ∷ []) s
unfolding console_write
zero_shown s = refl

-- For a 32-bit number, `console_write_dec` prints what `console_write` prints of a string of one to
-- ten decimal digits, which reads back as the number and starts with 0 only for the number 0.
pub console_write_dec_lem :
    (value : ℕ) (s : Console) → value < 2 ^ 32 → Shows value s (console_write_dec value s)
unfolding console_write_dec
console_write_dec_lem value s h =
    if_cases (Shows value s) (value == 0) (console_putc b'0' s)
      (write_back (dec_buffer value value) s)
      (λ e. record {
        digits = b'0' ∷ [];
        written = zero_shown s;
        decimal = (omega arith, omega arith, tt);
        reads = sym (==→≡ _ _ e);
        some = omega arith;
        fits = omega arith;
        starts = λ p. absurd (omega (arith, ==→≡ _ _ e));
      })
      (λ e. show_buffer value s (omega (arith, ==→≢ _ _ e)) h)
