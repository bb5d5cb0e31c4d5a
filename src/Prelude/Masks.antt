-- ===== src/Prelude/Masks.antt =====
-- Laws of `&` with a mask and of `|` with a shifted number.
use Prim.Native.Nat.{
  ℕ, zero, suc, ◌+◌, ◌-◌, ◌*◌, ◌/◌, ◌%◌, ◌^◌, ◌≤◌, ◌<◌, min, max, bit_and, bit_or, digits,
  bit_and-bitwise, bit_or-bitwise,
}
use mathlib.Core.Path.{◌≡◌, refl, ◌∙◌}
use native.Mathlib.Nat.{pow-suc}
use native.Mathlib.Omega.{arith}

and_digits_le : (n x y : ℕ) → digits (λ y. zero) min n x y ≤ y
and_digits_le zero x y = omega arith
and_digits_le (suc n) zero y = omega arith
and_digits_le (suc n) (suc x) y = omega (arith, and_digits_le n (suc x / 2) (y / 2))

pub bit_and_le : (x y : ℕ) → bit_and x y ≤ y
bit_and_le x y = omega (arith, bit_and-bitwise x y, and_digits_le x x y)

or_digits_fuel :
    (n m x y : ℕ) → x ≤ n → x ≤ m → digits (λ y. y) max n x y ≡ digits (λ y. y) max m x y
or_digits_fuel zero zero x y hn hm = refl
or_digits_fuel zero (suc m) zero y hn hm = refl
or_digits_fuel zero (suc m) (suc x) y hn hm = absurd (omega arith)
or_digits_fuel (suc n) zero zero y hn hm = refl
or_digits_fuel (suc n) zero (suc x) y hn hm = absurd (omega arith)
or_digits_fuel (suc n) (suc m) zero y hn hm = refl
or_digits_fuel (suc n) (suc m) (suc x) y hn hm =
    omega (arith, or_digits_fuel n m (suc x / 2) (y / 2) (omega arith) (omega arith))

zero-bit_or : (y : ℕ) → bit_or 0 y ≡ y
zero-bit_or y = bit_or-bitwise 0 y

bit_or_halves : (x y : ℕ) → bit_or x y ≡ bit_or (x / 2) (y / 2) * 2 + max (x % 2) (y % 2)
bit_or_halves zero y = omega (arith, zero-bit_or y, zero-bit_or (y / 2))
bit_or_halves (suc x) y = omega (
  arith,
  bit_or-bitwise (suc x) y,
  bit_or-bitwise (suc x / 2) (y / 2),
  or_digits_fuel x (suc x / 2) (suc x / 2) (y / 2) (omega arith) (omega arith),
)

bit_or-zero_fuel : (n x : ℕ) → x ≤ n → bit_or x 0 ≡ x
bit_or-zero_fuel n zero p = zero-bit_or 0
bit_or-zero_fuel zero (suc x) p = absurd (omega arith)
bit_or-zero_fuel (suc n) (suc x) p =
    omega (arith, bit_or_halves (suc x) 0, bit_or-zero_fuel n (suc x / 2) (omega arith))

abbrev doubled : ℕ → ℕ → ℕ
doubled zero m = m
doubled (suc k) m = 2 * doubled k m

doubled-half : (k m : ℕ) → doubled (suc k) m / 2 ≡ doubled k m
doubled-half k m = omega arith

bit_or-doubled : (k m l : ℕ) → l < 2 ^ k → bit_or (doubled k m) l ≡ doubled k m + l
bit_or-doubled zero m zero h = omega (arith, bit_or-zero_fuel m m (omega arith))
bit_or-doubled zero m (suc l) h = absurd (omega arith)
bit_or-doubled (suc k) m l h =
    bit_or_halves (2 * doubled k m) l
    ∙ rw doubled-half (omega (arith, bit_or-doubled k m (l / 2) (omega (arith, pow-suc 2 k))))

-- Bits above the lowest byte and bits in it do not meet.
pub bit_or_bytes : (m l : ℕ) → l < 256 → bit_or (m * 256) l ≡ m * 256 + l
bit_or_bytes m l h = rw shifted (bit_or-doubled 8 m l h)
  where
    shifted : m * 256 ≡ doubled 8 m
    shifted = omega arith

and_digits_fuel :
    (n m x y : ℕ) → x ≤ n → x ≤ m → digits (λ y. zero) min n x y ≡ digits (λ y. zero) min m x y
and_digits_fuel zero zero x y hn hm = refl
and_digits_fuel zero (suc m) zero y hn hm = refl
and_digits_fuel zero (suc m) (suc x) y hn hm = absurd (omega arith)
and_digits_fuel (suc n) zero zero y hn hm = refl
and_digits_fuel (suc n) zero (suc x) y hn hm = absurd (omega arith)
and_digits_fuel (suc n) (suc m) zero y hn hm = refl
and_digits_fuel (suc n) (suc m) (suc x) y hn hm =
    omega (arith, and_digits_fuel n m (suc x / 2) (y / 2) (omega arith) (omega arith))

zero-bit_and : (y : ℕ) → bit_and 0 y ≡ 0
zero-bit_and y = bit_and-bitwise 0 y

bit_and_halves : (x y : ℕ) → bit_and x y ≡ bit_and (x / 2) (y / 2) * 2 + min (x % 2) (y % 2)
bit_and_halves zero y = omega (arith, zero-bit_and y, zero-bit_and (y / 2))
bit_and_halves (suc x) y = omega (
  arith,
  bit_and-bitwise (suc x) y,
  bit_and-bitwise (suc x / 2) (y / 2),
  and_digits_fuel x (suc x / 2) (suc x / 2) (y / 2) (omega arith) (omega arith),
)

pub pow_pos : (k : ℕ) → 0 < 2 ^ k
pow_pos zero = omega arith
pow_pos (suc k) = omega (arith, pow-suc 2 k, pow_pos k)

-- The mask of a power of two keeps a smaller number, and clears the power itself.
pub bit_and-mask : (k x : ℕ) → x < 2 ^ k → bit_and x (2 ^ k - 1) ≡ x
bit_and-mask zero zero h = zero-bit_and 0
bit_and-mask zero (suc x) h = absurd (omega arith)
bit_and-mask (suc k) x h =
    bit_and_halves x (2 ^ suc k - 1)
    ∙ rw mask_half
        (omega (arith, pow-suc 2 k, pow_pos k, bit_and-mask k (x / 2) (omega (arith, pow-suc 2 k))))
  where
    mask_half : (2 ^ suc k - 1) / 2 ≡ 2 ^ k - 1
    mask_half = omega (arith, pow-suc 2 k)

pub bit_and-mask_power : (k : ℕ) → bit_and (2 ^ k) (2 ^ k - 1) ≡ 0
bit_and-mask_power zero = omega (arith, bit_and_le 1 0)
bit_and-mask_power (suc k) =
    bit_and_halves (2 ^ suc k) (2 ^ suc k - 1)
    ∙ rw (mask_half, half) (omega (arith, pow-suc 2 k, bit_and-mask_power k))
  where
    mask_half : (2 ^ suc k - 1) / 2 ≡ 2 ^ k - 1
    mask_half = omega (arith, pow-suc 2 k)

    half : 2 ^ suc k / 2 ≡ 2 ^ k
    half = omega (arith, pow-suc 2 k)
