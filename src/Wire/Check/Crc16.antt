-- ===== src/Wire/Check/Crc16.antt =====
-- `onewire_crc16`: which corruptions it detects.
use stm32_async_1wire.Prelude.{
  ℕ, zero, suc, ◌+◌, ◌*◌, ◌/◌, ◌%◌, ◌^◌, ◌<◌, bit_and, bit_xor, Bool, List, [], ◌∷◌, ◌++◌, length,
  All, leb, ◌==◌, ==_iff, if◌then◌else◌, ◌≡◌, ◌≢◌, refl, sym, ap, ◌∙◌, arith, all_below,
  all_below_sound, take_all,
}
use stm32_async_1wire.Prelude.Bits.{bit_xor_comm, bit_xor_cancel, bit_xor-lt}
use stm32_async_1wire.Wire.{crc16, crc16_bits, crc16_from, bits_per_byte, u16}
use stm32_async_1wire.Wire.Codec.{IsByte}

-- One step of the shift register, and back.
step : ℕ → ℕ
step x = if bit_and x 1 == 0 then x / 2 else u16 (bit_xor (x / 2) 0xa001)

unstep : ℕ → ℕ
unstep x = if leb 0x8000 x then bit_xor x 0xa001 * 2 + 1 else x * 2

step_test : ℕ → ℕ → Bool
step_test hi lo = unstep (step (hi * 256 + lo)) == hi * 256 + lo

unstep-step : (x : ℕ) → x < 2 ^ 16 → unstep (step x) ≡ x
unfolding step_test all_below step unstep
unstep-step x h =
    let split : x / 256 * 256 + x % 256 ≡ x = omega arith in
    rw split at (
      (==_iff _ _).0 (
        all_below_sound 256 (step_test (x / 256)) (x % 256)
          (all_below_sound 256 (λ hi. all_below 256 (step_test hi)) (x / 256) refl (omega arith))
          (omega arith)))

step-lt : (x : ℕ) → x < 2 ^ 16 → step x < 2 ^ 16
unfolding step
step-lt x h = ground arith

step_injective : (x y : ℕ) → x < 2 ^ 16 → y < 2 ^ 16 → step x ≡ step y → x ≡ y
step_injective x y hx hy e = sym (unstep-step x hx) ∙ ap unstep e ∙ unstep-step y hy

crc16_bits-step : (k x : ℕ) → crc16_bits (suc k) x ≡ crc16_bits k (step x)
unfolding crc16_bits step
crc16_bits-step k x = refl

crc16_bits-lt : (k x : ℕ) → x < 2 ^ 16 → crc16_bits k x < 2 ^ 16
crc16_bits-lt zero x h = unfold crc16_bits in h
crc16_bits-lt (suc k) x h = rw (crc16_bits-step k x) (crc16_bits-lt k (step x) (step-lt x h))

crc16_bits_injective :
    (k x y : ℕ) → x < 2 ^ 16 → y < 2 ^ 16 → crc16_bits k x ≡ crc16_bits k y → x ≡ y
crc16_bits_injective zero x y hx hy e = unfold crc16_bits in e
crc16_bits_injective (suc k) x y hx hy e = step_injective x y hx hy (
    crc16_bits_injective k (step x) (step y) (step-lt x hx) (step-lt y hy)
      (sym (crc16_bits-step k x) ∙ e ∙ crc16_bits-step k y))

-- The check sum's register after one byte.
byte_step : ℕ → ℕ → ℕ
byte_step c b = crc16_bits bits_per_byte (bit_xor c b)

byte_step-lt : (c b : ℕ) → c < 2 ^ 16 → b < 256 → byte_step c b < 2 ^ 16
unfolding byte_step
byte_step-lt c b hc hb =
    crc16_bits-lt bits_per_byte (bit_xor c b) (bit_xor-lt 16 c b hc (omega arith))

byte_step_cancel_byte :
    (c b b' : ℕ) → c < 2 ^ 16 → b < 256 → b' < 256 → byte_step c b ≡ byte_step c b' → b ≡ b'
unfolding byte_step
byte_step_cancel_byte c b b' hc hb hb' e = bit_xor_cancel c b b' (
    crc16_bits_injective bits_per_byte (bit_xor c b) (bit_xor c b')
      (bit_xor-lt 16 c b hc (omega arith)) (bit_xor-lt 16 c b' hc (omega arith)) e)

byte_step_cancel_crc :
    (c c' b : ℕ) → c < 2 ^ 16 → c' < 2 ^ 16 → b < 256 → byte_step c b ≡ byte_step c' b → c ≡ c'
unfolding byte_step
byte_step_cancel_crc c c' b hc hc' hb e = bit_xor_cancel b c c' (
    bit_xor_comm b c
    ∙ crc16_bits_injective bits_per_byte (bit_xor c b) (bit_xor c' b)
        (bit_xor-lt 16 c b hc (omega arith)) (bit_xor-lt 16 c' b hc' (omega arith)) e
    ∙ bit_xor_comm c' b)

crc16_from-step : (c b : ℕ) (ys : List ℕ) → crc16_from c (b ∷ ys) ≡ crc16_from (byte_step c b) ys
unfolding crc16_from byte_step
crc16_from-step c b ys = refl

crc16_from-append :
    (c : ℕ) (xs ys : List ℕ) → crc16_from c (xs ++ ys) ≡ crc16_from (crc16_from c xs) ys
unfolding crc16_from
crc16_from-append c [] ys = refl
crc16_from-append c (x ∷ xs) ys = crc16_from-append (crc16_bits bits_per_byte (bit_xor c x)) xs ys

pub crc16_from-lt : (c : ℕ) (xs : List ℕ) → c < 2 ^ 16 → All IsByte xs → crc16_from c xs < 2 ^ 16
crc16_from-lt c [] hc h = unfold crc16_from in hc
crc16_from-lt c (x ∷ xs) hc h =
    rw (crc16_from-step c x xs) (crc16_from-lt (byte_step c x) xs (byte_step-lt c x hc h.0) h.1)

crc16_from_cancel :
    (c c' : ℕ) (ys : List ℕ)
    → c < 2 ^ 16
    → c' < 2 ^ 16
    → All IsByte ys
    → crc16_from c ys ≡ crc16_from c' ys
    → c ≡ c'
crc16_from_cancel c c' [] hc hc' h e = unfold crc16_from in e
crc16_from_cancel c c' (y ∷ ys) hc hc' h e = byte_step_cancel_crc c c' y hc hc' h.0 (
    crc16_from_cancel (byte_step c y) (byte_step c' y) ys (byte_step-lt c y hc h.0)
      (byte_step-lt c' y hc' h.0) h.1 (sym (crc16_from-step c y ys) ∙ e ∙ crc16_from-step c' y ys))

crc16_same_byte :
    (xs ys : List ℕ) (b b' : ℕ)
    → All IsByte xs
    → All IsByte ys
    → IsByte b
    → IsByte b'
    → crc16 (xs ++ b ∷ ys) (length (xs ++ b ∷ ys)) ≡ crc16 (xs ++ b' ∷ ys) (length (xs ++ b' ∷ ys))
    → b ≡ b'
crc16_same_byte xs ys b b' hxs hys hb hb' e =
    let c : ℕ = crc16_from 0 xs in
    let hc : c < 2 ^ 16 = crc16_from-lt 0 xs (omega arith) hxs in
    byte_step_cancel_byte c b b' hc hb hb' (
      crc16_from_cancel _ _ ys (byte_step-lt c b hc hb) (byte_step-lt c b' hc hb') hys
        (sym (split b) ∙ e ∙ split b'))
  where
    split :
        (x : ℕ)
        → crc16 (xs ++ x ∷ ys) (length (xs ++ x ∷ ys))
          ≡ crc16_from (byte_step (crc16_from 0 xs) x) ys
    split x =
        unfold crc16 in
        ap (crc16_from 0) (take_all (xs ++ x ∷ ys))
        ∙ crc16_from-append 0 xs (x ∷ ys)
        ∙ crc16_from-step (crc16_from 0 xs) x ys

-- Buffers of bytes that differ in exactly one byte have different check sums: any corruption within one
-- byte is detected.
pub crc16_detects_byte :
    (xs ys : List ℕ) (b b' : ℕ)
    → All IsByte xs
    → All IsByte ys
    → IsByte b
    → IsByte b'
    → b ≢ b'
    → crc16 (xs ++ b ∷ ys) (length (xs ++ b ∷ ys)) ≢ crc16 (xs ++ b' ∷ ys) (length (xs ++ b' ∷ ys))
crc16_detects_byte xs ys b b' hxs hys hb hb' ne e = ne (crc16_same_byte xs ys b b' hxs hys hb hb' e)
