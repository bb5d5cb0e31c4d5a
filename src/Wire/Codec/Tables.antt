-- ===== src/Wire/Codec/Tables.antt =====
-- Pulse tables as the drivers build them: put bytes at the cursor, then the release pulse.
use stm32_async_1wire.Prelude.{
  ℕ, suc, ◌+◌, ◌*◌, ◌/◌, ◌%◌, ◌≤◌, ◌<◌, List, [], ◌∷◌, ◌++◌, set, take, drop, length, All, ◌≡◌,
  refl, sym, ap, ◌∙◌, arith, length-append, length-drop,
}
use mathlib.Core.List.{append_assoc, append-nil}
use stm32_async_1wire.Wire.{
  Build, put_byte, put_bytes, decode_pulses, decode_pulses_from, decode_bits, release_pulse,
  bits_per_byte, bit_from_pulse,
}
use stm32_async_1wire.Wire.Codec.Bytes.{
  bit_pulse, byte_pulses, encode_byte-append, get_or-append_add, decode_bits-value,
}

abbrev pub IsByte : ℕ → Type 0
IsByte b = b < 256

-- The pulses of a message.
abbrev pub message : List ℕ → List ℕ
message [] = []
message (b ∷ bytes) = byte_pulses b ++ message bytes

pub length-message : (bytes : List ℕ) → length (message bytes) ≡ 8 * length bytes
length-message [] = refl
length-message (b ∷ bytes) = omega (arith, length-message bytes)

pub message-append : (xs ys : List ℕ) → message (xs ++ ys) ≡ message xs ++ message ys
message-append [] ys = refl
message-append (x ∷ xs) ys = ap (λ (t : List ℕ). byte_pulses x ++ t) (message-append xs ys)

-- The table begins with the message, the cursor stands behind it, and `size` is the table's length.
pub record IsBuilt (b : Build) (bytes : List ℕ) (size : ℕ) : Type 0 where
  pub rest : List ℕ
  pub table_is : b.table ≡ message bytes ++ rest
  pub cursor_is : b.cursor ≡ length (message bytes)
  pub size_is : 8 * length bytes + length rest ≡ size

pub start-IsBuilt :
    (table : List ℕ) → IsBuilt (record { table = table; cursor = 0 }) [] (length table)
start-IsBuilt table = record {
  rest = table;
  table_is = refl;
  cursor_is = refl;
  size_is = omega arith;
}

-- The next byte extends the message, where the table has room for it.
pub put_byte-IsBuilt :
    (b : Build) (bytes : List ℕ) (byte size : ℕ)
    → IsByte byte
    → 8 * length bytes + 8 ≤ size
    → IsBuilt b bytes size
    → IsBuilt (put_byte b byte) (bytes ++ byte ∷ []) size
unfolding put_byte
put_byte-IsBuilt b bytes byte size is_byte room built = record {
  rest = drop 8 built.rest;
  table_is =
      rw (built.table_is, built.cursor_is)
        (encode_byte-append (message bytes) built.rest byte is_byte (omega (arith, built.size_is))
          ∙ regroup);
  cursor_is =
      rw (built.cursor_is, message-append bytes (byte ∷ []))
        (omega (arith, length-append (message bytes) (message (byte ∷ []))));
  size_is = omega (arith, length-append bytes (byte ∷ []), length-drop 8 built.rest, built.size_is);
}
  where
    regroup :
        message bytes ++ (byte_pulses byte ++ drop 8 built.rest)
        ≡ message (bytes ++ byte ∷ []) ++ drop 8 built.rest
    regroup =
        rw (message-append bytes (byte ∷ []))
          (sym (append_assoc (message bytes) (byte_pulses byte) (drop 8 built.rest)))

pub put_bytes-IsBuilt :
    (b : Build) (done more : List ℕ) (size : ℕ)
    → All IsByte more
    → 8 * length done + 8 * length more ≤ size
    → IsBuilt b done size
    → IsBuilt (put_bytes b more) (done ++ more) size
unfolding put_bytes
put_bytes-IsBuilt b done [] size h room built = rw (append-nil done) built
put_bytes-IsBuilt b done (byte ∷ more) size h room built =
    rw (← append_assoc done (byte ∷ []) more) (
      put_bytes-IsBuilt (put_byte b byte) (done ++ byte ∷ []) more size h.1
        (omega (arith, length-append done (byte ∷ [])))
        (put_byte-IsBuilt b done byte size h.0 (omega arith) built))

take-set_end :
    (xs ys : List ℕ) (v : ℕ)
    → 0 < length ys
    → take (suc (length xs)) (set (xs ++ ys) (length xs) v) ≡ xs ++ v ∷ []
take-set_end [] [] v h = absurd (omega arith)
take-set_end [] (y ∷ ys) v h = refl
take-set_end (x ∷ xs) ys v h = ap (λ (t : List ℕ). x ∷ t) (take-set_end xs ys v h)

-- With the release pulse behind the message, the slots and the final feed are the message and the
-- release.
pub release_after :
    (b : Build) (bytes : List ℕ) (size : ℕ)
    → 8 * length bytes < size
    → IsBuilt b bytes size
    → take (suc (8 * length bytes)) (set b.table (8 * length bytes) release_pulse)
      ≡ message bytes ++ release_pulse ∷ []
release_after b bytes size room built =
    rw (built.table_is, ← length-message bytes)
      (take-set_end (message bytes) built.rest release_pulse (omega (arith, built.size_is)))

pub bit_from_pulse-bit_pulse : (x : ℕ) → x < 2 → bit_from_pulse (bit_pulse x) ≡ x
unfolding bit_from_pulse
bit_from_pulse-bit_pulse x h = ground arith

decode_bits-byte_pulses :
    (pre rest : List ℕ) (b : ℕ)
    → IsByte b
    → decode_bits bits_per_byte 0 0 (pre ++ (byte_pulses b ++ rest)) (length pre) ≡ b
decode_bits-byte_pulses pre rest b h =
    decode_bits-value (pre ++ (byte_pulses b ++ rest)) (length pre)
    ∙ simp get_or-append_add (
        simp
          (
            bit_from_pulse-bit_pulse (b % 2) (omega arith),
            bit_from_pulse-bit_pulse (b / 2 % 2) (omega arith),
            bit_from_pulse-bit_pulse (b / 4 % 2) (omega arith),
            bit_from_pulse-bit_pulse (b / 8 % 2) (omega arith),
            bit_from_pulse-bit_pulse (b / 16 % 2) (omega arith),
            bit_from_pulse-bit_pulse (b / 32 % 2) (omega arith),
            bit_from_pulse-bit_pulse (b / 64 % 2) (omega arith),
            bit_from_pulse-bit_pulse (b / 128 % 2) (omega arith),
          )
          (omega arith))

set_end : (xs ys : List ℕ) (y v : ℕ) → set (xs ++ y ∷ ys) (length xs) v ≡ xs ++ v ∷ ys
set_end [] ys y v = refl
set_end (x ∷ xs) ys y v = ap (λ (t : List ℕ). x ∷ t) (set_end xs ys y v)

decode_step :
    (left byte : ℕ) (dst pulse : List ℕ)
    → decode_pulses_from (suc left) byte dst pulse
      ≡ decode_pulses_from left
          (byte + 1)
          (set dst byte (decode_bits bits_per_byte 0 0 pulse (byte * bits_per_byte)))
          pulse
unfolding decode_pulses_from
decode_step left byte dst pulse = refl

decode_none : (byte : ℕ) (dst pulse : List ℕ) → decode_pulses_from 0 byte dst pulse ≡ dst
unfolding decode_pulses_from
decode_none byte dst pulse = refl

decode_from-message :
    (more xs ys rest : List ℕ)
    → All IsByte more
    → length more ≤ length ys
    → decode_pulses_from (length more) (length xs) (xs ++ ys) (message xs ++ (message more ++ rest))
      ≡ xs ++ (more ++ drop (length more) ys)
decode_from-message [] xs ys rest h l = decode_none _ _ _
decode_from-message (b ∷ more) xs [] rest h l = absurd (omega arith)
decode_from-message (b ∷ more) xs (y ∷ ys) rest h l =
    rw
      (
        decode_step,
        at_base,
        decode_bits-byte_pulses (message xs) (message more ++ rest) b h.0,
        set_end xs ys y b,
      )
      (rw
        (
          length-snoc,
          message-append xs (b ∷ []),
          append_assoc xs (b ∷ []) ys,
          append_assoc (message xs) (byte_pulses b) (message more ++ rest),
          append_assoc xs (b ∷ []),
        )
        at (decode_from-message more (xs ++ b ∷ []) ys rest h.1 (omega arith)))
  where
    at_base : length xs * bits_per_byte ≡ length (message xs)
    at_base = omega (arith, length-message xs)

    length-snoc : length (xs ++ b ∷ []) ≡ length xs + 1
    length-snoc = length-append xs (b ∷ [])

-- Decoding the pulses of a message gives the message back, and leaves the rest of the buffer alone.
pub decode_pulses-message :
    (bytes dst rest : List ℕ)
    → All IsByte bytes
    → length bytes ≤ length dst
    → decode_pulses dst (message bytes ++ rest) (length bytes) ≡ bytes ++ drop (length bytes) dst
unfolding decode_pulses
decode_pulses-message bytes dst rest h l = decode_from-message bytes [] dst rest h l
