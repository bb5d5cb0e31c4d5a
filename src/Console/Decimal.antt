-- ===== src/Console/Decimal.antt =====
-- The decimal text of `uart_write_int`.
use stm32_async_1wire.Prelude.{
  ℕ, zero, suc, ◌+◌, ◌-◌, ◌*◌, ◌/◌, ◌%◌, ◌^◌, ◌≤◌, ◌<◌, Bool, true, false, leb, List, [], ◌∷◌,
  length, ◌==◌, if◌then◌else◌, ◌≡◌, refl, ap, ◌∙◌, arith, Bool-cases, inl, inr,
}
use native.Mathlib.Nat.{pow-suc}
use stm32_async_1wire.Prelude.Int.{ℤ, pos, negsuc, ◌≤ℤ◌}
use stm32_async_1wire.Console.{put_digits, int_text}

-- The number that a text of digits is read as, behind a number already read.
abbrev pub number : ℕ → List ℕ → ℕ
number n [] = n
number n (c ∷ s) = number (n * 10 + (c - 48)) s

-- The integer that a text is read as.
abbrev pub integer : List ℕ → ℤ
integer [] = pos 0
integer (c ∷ s) = if c == 45 then negsuc (number 0 s - 1) else pos (number 0 (c ∷ s))

number-put_digits :
    (fuel u : ℕ) (p : List ℕ) → u < 10 ^ fuel → number 0 (put_digits fuel u p) ≡ number u p
unfolding put_digits
number-put_digits zero u p h = ap (λ (n : ℕ). number n p) (omega arith)
number-put_digits (suc fuel) u p h = elim (Bool-cases (u / 10 == 0)) [
  | inl e ↦ rw e (ap (λ (n : ℕ). number n p) (ground arith))
  | inr e ↦ rw e (
      number-put_digits fuel (u / 10) ((48 + u % 10) ∷ p) (omega (arith, pow-suc 10 fuel))
      ∙ ap (λ (n : ℕ). number n p) (omega arith))
]

length-put_digits : (fuel u : ℕ) (p : List ℕ) → length (put_digits fuel u p) ≤ fuel + length p
unfolding put_digits
length-put_digits zero u p = omega arith
length-put_digits (suc fuel) u p =
    ground (arith, length-put_digits fuel (u / 10) ((48 + u % 10) ∷ p))

-- The first character is a digit.
unfoldable pub starts_with_digit : List ℕ → Bool
starts_with_digit [] = false
starts_with_digit (c ∷ s) = leb 48 c

pub starts-put_digits :
    (fuel u : ℕ) (p : List ℕ) → starts_with_digit (put_digits (suc fuel) u p) ≡ true
unfolding put_digits starts_with_digit
starts-put_digits zero u p = ground arith
starts-put_digits (suc fuel) u p =
    ground (arith, starts-put_digits fuel (u / 10) ((48 + u % 10) ∷ p))

positive : (s : List ℕ) → starts_with_digit s ≡ true → integer s ≡ pos (number 0 s)
unfolding starts_with_digit
positive [] h = refl
positive (c ∷ s) h = ground arith

-- The text of every `int` fits the 12 bytes of the buffer, its terminating 0 included, and reads back
-- as the number.
pub int_text_reads :
    (value : ℤ)
    → negsuc (2 ^ 31 - 1) ≤ℤ value
    → value ≤ℤ pos (2 ^ 31 - 1)
    → (length (int_text value) ≤ 11) × (integer (int_text value) ≡ value)
unfolding int_text
int_text_reads (pos zero) lo hi = (omega arith, refl)
int_text_reads (pos (suc n)) lo hi = (
  omega (arith, length-put_digits 10 (suc n) []),
  positive _ (starts-put_digits 9 (suc n) [])
      ∙ ap pos (number-put_digits 10 (suc n) [] (omega arith)),
)
int_text_reads (negsuc n) lo hi = (
  omega (arith, length-put_digits 10 (n + 1) []),
  ap negsuc (omega (arith, number-put_digits 10 (n + 1) [] (omega arith))),
)
