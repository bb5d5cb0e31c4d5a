-- ===== src/Wire/Codec/Bytes.antt =====
-- One byte in pulses, and back.
use stm32_async_1wire.Prelude.{
  ℕ, zero, suc, ◌+◌, ◌*◌, ◌/◌, ◌%◌, ◌^◌, ◌≤◌, ◌<◌, bit_and, bit_or, Bool, true, List, [], ◌∷◌, ◌++◌,
  get_or, set, drop, length, ◌==◌, if◌then◌else◌, ◌≡◌, refl, ap, ◌∙◌, arith, ==_iff, all_below,
  all_below_sound,
}
use stm32_async_1wire.Wire.{
  one_pulse, zero_pulse, bits_per_byte, u8, bit_from_pulse, encode_bits, encode_byte, decode_bits,
}

-- The pulse that sends a bit.
abbrev pub bit_pulse : ℕ → ℕ
bit_pulse bit = if bit == 0 then zero_pulse else one_pulse

-- The eight pulses of a byte, lowest bit first.
abbrev pub byte_pulses : ℕ → List ℕ
byte_pulses b =
    bit_pulse (b % 2)
    ∷ bit_pulse (b / 2 % 2)
    ∷ bit_pulse (b / 4 % 2)
    ∷ bit_pulse (b / 8 % 2)
    ∷ bit_pulse (b / 16 % 2)
    ∷ bit_pulse (b / 32 % 2)
    ∷ bit_pulse (b / 64 % 2)
    ∷ bit_pulse (b / 128 % 2)
    ∷ []

module _ {ℓ} {A : Type ℓ} where
  pub set-append :
      (xs ys : List A) (i : ℕ) (v : A) → set (xs ++ ys) (length xs + i) v ≡ xs ++ set ys i v
  set-append [] ys i v = rw zero_add
    where
      zero_add : 0 + i ≡ i
      zero_add = omega arith
  set-append (x ∷ xs) ys i v = rw suc_add (ap (λ (l : List A). x ∷ l) (set-append xs ys i v))
    where
      suc_add : suc (length xs) + i ≡ suc (length xs + i)
      suc_add = omega arith

  pub get_or-append_add :
      (xs ys : List A) (i : ℕ) (d : A) → get_or (xs ++ ys) (length xs + i) d ≡ get_or ys i d
  get_or-append_add [] ys i d = rw zero_add
    where
      zero_add : 0 + i ≡ i
      zero_add = omega arith
  get_or-append_add (x ∷ xs) ys i d = rw suc_add (get_or-append_add xs ys i d)
    where
      suc_add : suc (length xs) + i ≡ suc (length xs + i)
      suc_add = omega arith

bit_test : ℕ → ℕ → Bool
bit_test i b =
    (if bit_and b (2 ^ i) == 0 then zero_pulse else one_pulse) == bit_pulse (b / 2 ^ i % 2)

-- The mask test of `onewire_encode_byte` reads the digit of the byte.
mask_pulse :
    (i b : ℕ)
    → all_below 256 (bit_test i) ≡ true
    → b < 256
    → (if bit_and b (2 ^ i) == 0 then zero_pulse else one_pulse) ≡ bit_pulse (b / 2 ^ i % 2)
unfolding bit_test
mask_pulse i b table h = (==_iff _ _).0 (all_below_sound 256 (bit_test i) b table h)

encode_bits-append :
    (left i : ℕ) (xs ys : List ℕ) (b : ℕ)
    → encode_bits left i (xs ++ ys) (length xs) b ≡ xs ++ encode_bits left i ys 0 b
unfolding encode_bits
encode_bits-append zero i xs ys b = refl
encode_bits-append (suc left) i xs ys b =
    rw (set-append xs ys i _, zero_add) (encode_bits-append left (i + 1) xs (set ys i _) b)
  where
    zero_add : 0 + i ≡ i
    zero_add = omega arith

encode_bits_eight :
    (y0 y1 y2 y3 y4 y5 y6 y7 : ℕ) (ys : List ℕ) (b : ℕ)
    → b < 256
    → encode_bits 8 0 (y0 ∷ y1 ∷ y2 ∷ y3 ∷ y4 ∷ y5 ∷ y6 ∷ y7 ∷ ys) 0 b ≡ byte_pulses b ++ ys
unfolding encode_bits bit_test all_below
encode_bits_eight y0 y1 y2 y3 y4 y5 y6 y7 ys b h =
    let by_one : b / 1 ≡ b = omega arith in
    rw (
      mask_pulse 0 b refl h,
      mask_pulse 1 b refl h,
      mask_pulse 2 b refl h,
      mask_pulse 3 b refl h,
      mask_pulse 4 b refl h,
      mask_pulse 5 b refl h,
      mask_pulse 6 b refl h,
      mask_pulse 7 b refl h,
      by_one,
    )

encode_bits-byte_pulses :
    (ys : List ℕ) (b : ℕ)
    → b < 256
    → 8 ≤ length ys
    → encode_bits 8 0 ys 0 b ≡ byte_pulses b ++ drop 8 ys
encode_bits-byte_pulses [] b h l = absurd (omega arith)
encode_bits-byte_pulses (_ ∷ []) b h l = absurd (omega arith)
encode_bits-byte_pulses (_ ∷ _ ∷ []) b h l = absurd (omega arith)
encode_bits-byte_pulses (_ ∷ _ ∷ _ ∷ []) b h l = absurd (omega arith)
encode_bits-byte_pulses (_ ∷ _ ∷ _ ∷ _ ∷ []) b h l = absurd (omega arith)
encode_bits-byte_pulses (_ ∷ _ ∷ _ ∷ _ ∷ _ ∷ []) b h l = absurd (omega arith)
encode_bits-byte_pulses (_ ∷ _ ∷ _ ∷ _ ∷ _ ∷ _ ∷ []) b h l = absurd (omega arith)
encode_bits-byte_pulses (_ ∷ _ ∷ _ ∷ _ ∷ _ ∷ _ ∷ _ ∷ []) b h l = absurd (omega arith)
encode_bits-byte_pulses (y0 ∷ y1 ∷ y2 ∷ y3 ∷ y4 ∷ y5 ∷ y6 ∷ y7 ∷ ys) b h l =
    encode_bits_eight y0 y1 y2 y3 y4 y5 y6 y7 ys b h

-- A byte is written at the cursor and nowhere else.
pub encode_byte-append :
    (xs ys : List ℕ) (b : ℕ)
    → b < 256
    → 8 ≤ length ys
    → encode_byte (xs ++ ys) (length xs) b ≡ xs ++ (byte_pulses b ++ drop 8 ys)
unfolding encode_byte
encode_byte-append xs ys b h l =
    encode_bits-append 8 0 xs ys b ∙ ap (λ (t : List ℕ). xs ++ t) (encode_bits-byte_pulses ys b h l)

-- The value of eight digits, lowest first.
abbrev pub digits_value : ℕ → ℕ → ℕ → ℕ → ℕ → ℕ → ℕ → ℕ → ℕ
digits_value b0 b1 b2 b3 b4 b5 b6 b7 =
    b0 + b1 * 2 + b2 * 4 + b3 * 8 + b4 * 16 + b5 * 32 + b6 * 64 + b7 * 128

abbrev or_bit : ℕ → ℕ → ℕ → ℕ
or_bit value bit i = bit_or value (u8 (bit * 2 ^ i))

abbrev or_bits : ℕ → ℕ → ℕ → ℕ → ℕ → ℕ → ℕ → ℕ → ℕ
or_bits b0 b1 b2 b3 b4 b5 b6 b7 =
    or_bit
      (or_bit (or_bit (or_bit (or_bit (or_bit (or_bit (or_bit 0 b0 0) b1 1) b2 2) b3 3) b4 4) b5 5)
        b6 6)
      b7 7

or_test : ℕ → Bool
or_test v =
    or_bits (v % 2) (v / 2 % 2) (v / 4 % 2) (v / 8 % 2) (v / 16 % 2) (v / 32 % 2) (v / 64 % 2)
      (v / 128 % 2)
    == v

or_digits :
    (v : ℕ)
    → v < 256
    → or_bits
        (v % 2)
        (v / 2 % 2)
        (v / 4 % 2)
        (v / 8 % 2)
        (v / 16 % 2)
        (v / 32 % 2)
        (v / 64 % 2)
        (v / 128 % 2)
      ≡ v
unfolding or_test all_below
or_digits v h = (==_iff _ _).0 (all_below_sound 256 or_test v refl h)

or_bits-value :
    (b0 b1 b2 b3 b4 b5 b6 b7 : ℕ)
    → b0 < 2
    → b1 < 2
    → b2 < 2
    → b3 < 2
    → b4 < 2
    → b5 < 2
    → b6 < 2
    → b7 < 2
    → or_bits b0 b1 b2 b3 b4 b5 b6 b7 ≡ digits_value b0 b1 b2 b3 b4 b5 b6 b7
or_bits-value b0 b1 b2 b3 b4 b5 b6 b7 h0 h1 h2 h3 h4 h5 h6 h7 =
    let v = digits_value b0 b1 b2 b3 b4 b5 b6 b7 in
    let d0 : v % 2 ≡ b0 = omega arith in
    let d1 : v / 2 % 2 ≡ b1 = omega arith in
    let d2 : v / 4 % 2 ≡ b2 = omega arith in
    let d3 : v / 8 % 2 ≡ b3 = omega arith in
    let d4 : v / 16 % 2 ≡ b4 = omega arith in
    let d5 : v / 32 % 2 ≡ b5 = omega arith in
    let d6 : v / 64 % 2 ≡ b6 = omega arith in
    let d7 : v / 128 % 2 ≡ b7 = omega arith in
    rw (d0, d1, d2, d3, d4, d5, d6, d7) at (or_digits v (omega arith))

pub bit_from_pulse-lt : (dur : ℕ) → bit_from_pulse dur < 2
unfolding bit_from_pulse
bit_from_pulse-lt dur = ground arith

-- A decoded byte is the sum of its pulses' bits, each at its place.
pub decode_bits-value :
    (pulse : List ℕ) (base : ℕ)
    → let bit = λ (i : ℕ). bit_from_pulse (get_or pulse (base + i) 0) in
      decode_bits bits_per_byte 0 0 pulse base
      ≡ digits_value (bit 0) (bit 1) (bit 2) (bit 3) (bit 4) (bit 5) (bit 6) (bit 7)
unfolding decode_bits
decode_bits-value pulse base =
    or_bits-value _ _ _ _ _ _ _ _ (bit_from_pulse-lt _) (bit_from_pulse-lt _) (bit_from_pulse-lt _)
      (bit_from_pulse-lt _) (bit_from_pulse-lt _) (bit_from_pulse-lt _) (bit_from_pulse-lt _)
      (bit_from_pulse-lt _)
