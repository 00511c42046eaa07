-- ===== src/Prelude/Bits.antt =====
-- Single bits of a machine word, and the laws of the bitwise operations at every width.
use Prim.Native.Nat.{ℕ, zero, suc, ◌+◌, ◌-◌, ◌*◌, ◌/◌, ◌%◌, ◌^◌, ◌≤◌, ◌<◌, min, max}
use Prim.Native.Nat.{bit_and, bit_or, digits, bit_and-bitwise, bit_or-bitwise}
use mathlib.Core.Path.{◌≡◌, refl, sym, ap, ap₂, ◌∙◌}
use native.Mathlib.Omega.{arith}
use native.Mathlib.Nat.{pow-suc, div-add-mod, div-div-eq-div-mul}

-- Bit `i` of `w`, 0 or 1.
abbrev pub bit : ℕ → ℕ → ℕ
bit w zero = w % 2
bit w (suc i) = bit (w / 2) i

-- Both operations go digit by digit, on fuel; more fuel changes nothing.
module _ (rest : ℕ → ℕ) (op : ℕ → ℕ → ℕ) where
  enough_fuel : (n m a b : ℕ) → a ≤ n → a ≤ m → digits rest op n a b ≡ digits rest op m a b
  enough_fuel zero zero a b p q = refl
  enough_fuel zero (suc m) zero b p q = refl
  enough_fuel zero (suc m) (suc a) b p q = absurd (omega arith)
  enough_fuel (suc n) zero zero b p q = refl
  enough_fuel (suc n) zero (suc a) b p q = absurd (omega arith)
  enough_fuel (suc n) (suc m) zero b p q = refl
  enough_fuel (suc n) (suc m) (suc a) b p q =
      omega (arith, enough_fuel n m (suc a / 2) (b / 2) (omega arith) (omega arith))

bit_and_low : (a b : ℕ) → bit_and a b ≡ bit_and (a / 2) (b / 2) * 2 + min (a % 2) (b % 2)
bit_and_low zero b = omega (arith, bit_and-bitwise 0 b, bit_and-bitwise 0 (b / 2))
bit_and_low (suc a) b = omega (
  arith,
  bit_and-bitwise (suc a) b,
  bit_and-bitwise (suc a / 2) (b / 2),
  enough_fuel (λ _. 0) min a (suc a / 2) (suc a / 2) (b / 2) (omega arith) (omega arith),
)

bit_or_low : (a b : ℕ) → bit_or a b ≡ bit_or (a / 2) (b / 2) * 2 + max (a % 2) (b % 2)
bit_or_low zero b = omega (arith, bit_or-bitwise 0 b, bit_or-bitwise 0 (b / 2))
bit_or_low (suc a) b = omega (
  arith,
  bit_or-bitwise (suc a) b,
  bit_or-bitwise (suc a / 2) (b / 2),
  enough_fuel (λ y. y) max a (suc a / 2) (suc a / 2) (b / 2) (omega arith) (omega arith),
)

pub bit_lt_two : (w i : ℕ) → bit w i < 2
bit_lt_two w zero = omega arith
bit_lt_two w (suc i) = bit_lt_two (w / 2) i

pub bit-bit_and : (a b i : ℕ) → bit (bit_and a b) i ≡ min (bit a i) (bit b i)
bit-bit_and a b zero = omega (arith, bit_and_low a b)
bit-bit_and a b (suc i) =
    let e : bit_and a b / 2 ≡ bit_and (a / 2) (b / 2) = omega (arith, bit_and_low a b) in
    rw e (bit-bit_and (a / 2) (b / 2) i)

pub bit-bit_or : (a b i : ℕ) → bit (bit_or a b) i ≡ max (bit a i) (bit b i)
bit-bit_or a b zero = omega (arith, bit_or_low a b)
bit-bit_or a b (suc i) =
    let e : bit_or a b / 2 ≡ bit_or (a / 2) (b / 2) = omega (arith, bit_or_low a b) in
    rw e (bit-bit_or (a / 2) (b / 2) i)

bit_and-zero_fuel : (n a : ℕ) → a ≤ n → bit_and a 0 ≡ 0
bit_and-zero_fuel n zero h = omega (arith, bit_and-bitwise 0 0)
bit_and-zero_fuel zero (suc a) h = absurd (omega arith)
bit_and-zero_fuel (suc n) (suc a) h =
    omega (arith, bit_and_low (suc a) 0, bit_and-zero_fuel n (suc a / 2) (omega arith))

pub bit_and-zero : (a : ℕ) → bit_and a 0 ≡ 0
bit_and-zero a = bit_and-zero_fuel a a (omega arith)

bit_or-zero_fuel : (n a : ℕ) → a ≤ n → bit_or a 0 ≡ a
bit_or-zero_fuel n zero h = omega (arith, bit_or-bitwise 0 0)
bit_or-zero_fuel zero (suc a) h = absurd (omega arith)
bit_or-zero_fuel (suc n) (suc a) h =
    omega (arith, bit_or_low (suc a) 0, bit_or-zero_fuel n (suc a / 2) (omega arith))

pub bit_or-zero : (a : ℕ) → bit_or a 0 ≡ a
bit_or-zero a = bit_or-zero_fuel a a (omega arith)

pub zero-bit_or : (a : ℕ) → bit_or 0 a ≡ a
zero-bit_or a = omega (arith, bit_or-bitwise 0 a)

-- `x & (1 << k)` keeps bit `k` in its place.
pub bit_and-pow : (w k : ℕ) → bit_and w (2 ^ k) ≡ bit w k * 2 ^ k
bit_and-pow w zero = omega (arith, bit_and_low w 1, bit_and-zero (w / 2))
bit_and-pow w (suc k) = omega (
  arith,
  bit_and_low w (2 ^ suc k),
  pow-suc 2 k,
  ap (λ (t : ℕ). bit (w / 2) k * t) (pow-suc 2 k),
  ap (bit_and (w / 2)) half,
  bit_and-pow (w / 2) k,
)
  where
    half : 2 ^ suc k / 2 ≡ 2 ^ k
    half = omega (arith, pow-suc 2 k)

pub pow_pos : (k : ℕ) → 1 ≤ 2 ^ k
pow_pos zero = omega arith
pow_pos (suc k) = omega (arith, pow-suc 2 k, pow_pos k)

half_pow : (k : ℕ) → (2 ^ suc k / 2 ≡ 2 ^ k) × (2 ^ suc k % 2 ≡ 0)
half_pow k = omega (arith, pow-suc 2 k)

half_times_pow : (m k : ℕ) → (m * 2 ^ suc k / 2 ≡ m * 2 ^ k) × (m * 2 ^ suc k % 2 ≡ 0)
half_times_pow m k = omega (arith, ap (λ (t : ℕ). m * t) (pow-suc 2 k))

div_twice : (a k : ℕ) → a / 2 ^ suc k ≡ a / 2 / 2 ^ k
div_twice a k =
    let e : 2 ^ suc k ≡ 2 * 2 ^ k = omega (arith, pow-suc 2 k) in
    rw e (sym (div-div-eq-div-mul a 2 (2 ^ k)))

mod_twice : (a k : ℕ) → a % 2 ^ suc k ≡ a / 2 % 2 ^ k * 2 + a % 2
mod_twice a k = omega (
  arith,
  div-add-mod a (2 ^ suc k),
  div-add-mod (a / 2) (2 ^ k),
  ap (λ (t : ℕ). 2 ^ suc k * t) (div_twice a k),
  ap (λ (t : ℕ). t * (a / 2 / 2 ^ k)) (pow-suc 2 k),
)

-- A mask of `k` ones is the remainder by `2 ^ k`.
pub bit_and_mask : (k a : ℕ) → bit_and a (2 ^ k - 1) ≡ a % 2 ^ k
bit_and_mask zero a = omega (arith, bit_and-zero a)
bit_and_mask (suc k) a = omega (
  arith,
  bit_and_low a (2 ^ suc k - 1),
  ap (bit_and (a / 2)) half,
  pow-suc 2 k,
  pow_pos k,
  mod_twice a k,
  bit_and_mask k (a / 2),
)
  where
    half : (2 ^ suc k - 1) / 2 ≡ 2 ^ k - 1
    half = omega (arith, pow-suc 2 k, pow_pos k)

-- `lo | (hi << k)` is a sum where `lo` fits in `k` bits.
pub bit_or_fields : (k lo hi : ℕ) → lo < 2 ^ k → bit_or lo (hi * 2 ^ k) ≡ lo + hi * 2 ^ k
bit_or_fields zero lo hi h =
    let e : lo ≡ 0 = omega arith in rw e (omega (arith, zero-bit_or (hi * 2 ^ 0)))
bit_or_fields (suc k) lo hi h = omega (
  arith,
  bit_or_low lo (hi * 2 ^ suc k),
  ap (bit_or (lo / 2)) (half_times_pow hi k).0,
  half_times_pow hi k,
  bit_or_fields k (lo / 2) hi (omega (arith, pow-suc 2 k)),
)

-- The same with the high field on the left.
pub bit_or_high : (k lo hi : ℕ) → lo < 2 ^ k → bit_or (hi * 2 ^ k) lo ≡ lo + hi * 2 ^ k
bit_or_high zero lo hi h =
    let e : lo ≡ 0 = omega arith in rw e (omega (arith, bit_or-zero (hi * 2 ^ 0)))
bit_or_high (suc k) lo hi h = omega (
  arith,
  bit_or_low (hi * 2 ^ suc k) lo,
  ap (λ t. bit_or t (lo / 2)) (half_times_pow hi k).0,
  half_times_pow hi k,
  bit_or_high k (lo / 2) hi (omega (arith, pow-suc 2 k)),
)

-- A mask over high bits.
pub bit_and_high : (k a m : ℕ) → bit_and a (m * 2 ^ k) ≡ bit_and (a / 2 ^ k) m * 2 ^ k
bit_and_high zero a m = omega (arith, ap₂ bit_and (one_div a) (one_times m))
  where
    one_div : (x : ℕ) → x ≡ x / 2 ^ 0
    one_div x = omega arith

    one_times : (x : ℕ) → x * 2 ^ 0 ≡ x
    one_times x = omega arith
bit_and_high (suc k) a m = rw (div_twice a k) (
    omega (
      arith,
      bit_and_low a (m * 2 ^ suc k),
      ap (bit_and (a / 2)) (half_times_pow m k).0,
      half_times_pow m k,
      ap (λ (t : ℕ). bit_and (a / 2 / 2 ^ k) m * t) (pow-suc 2 k),
      bit_and_high k (a / 2) m,
    ))

pub bit_or-lt : (k a b : ℕ) → a < 2 ^ k → b < 2 ^ k → bit_or a b < 2 ^ k
bit_or-lt zero a b ha hb =
    let ea : a ≡ 0 = omega arith in
    let eb : b ≡ 0 = omega arith in rw (ea, eb) (omega (arith, bit_or-zero 0))
bit_or-lt (suc k) a b ha hb =
    let smaller =
      bit_or-lt k (a / 2) (b / 2) (omega (arith, pow-suc 2 k)) (omega (arith, pow-suc 2 k)) in
    omega (arith, bit_or_low a b, pow-suc 2 k, smaller)

bit_and-le_fuel : (n a b : ℕ) → a ≤ n → bit_and a b ≤ a
bit_and-le_fuel n zero b h = omega (arith, bit_and-bitwise 0 b)
bit_and-le_fuel zero (suc a) b h = absurd (omega arith)
bit_and-le_fuel (suc n) (suc a) b h =
    omega (arith, bit_and_low (suc a) b, bit_and-le_fuel n (suc a / 2) (b / 2) (omega arith))

pub bit_and-le : (a b : ℕ) → bit_and a b ≤ a
bit_and-le a b = bit_and-le_fuel a a b (omega arith)

-- `|` works on the bits from `k` up by themselves.
pub bit_or-div : (k a b : ℕ) → bit_or a b / 2 ^ k ≡ bit_or (a / 2 ^ k) (b / 2 ^ k)
bit_or-div zero a b = omega (arith, ap₂ bit_or (one_div a) (one_div b))
  where
    one_div : (x : ℕ) → x ≡ x / 2 ^ 0
    one_div x = omega arith
bit_or-div (suc k) a b =
    rw (div_twice a k, div_twice b k, div_twice (bit_or a b) k)
      (ap (λ (t : ℕ). t / 2 ^ k) (bit_or_half a b) ∙ bit_or-div k (a / 2) (b / 2))
  where
    bit_or_half : (x y : ℕ) → bit_or x y / 2 ≡ bit_or (x / 2) (y / 2)
    bit_or_half x y = omega (arith, bit_or_low x y)

-- A field below bit `k` does not show above it.
pub bit_or-div_low : (k a b : ℕ) → b < 2 ^ k → bit_or a b / 2 ^ k ≡ a / 2 ^ k
bit_or-div_low k a b h =
    let e : b / 2 ^ k ≡ 0 = div_small k b h in
    bit_or-div k a b ∙ ap (bit_or (a / 2 ^ k)) e ∙ bit_or-zero (a / 2 ^ k)
  where
    div_small : (j x : ℕ) → x < 2 ^ j → x / 2 ^ j ≡ 0
    div_small zero x l = omega arith
    div_small (suc j) x l = rw (div_twice x j) (div_small j (x / 2) (omega (arith, pow-suc 2 j)))
