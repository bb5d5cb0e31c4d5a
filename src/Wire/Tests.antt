-- ===== src/Wire/Tests.antt =====
-- Runs of the pulse code on inputs that can be followed in the source.
use stm32_async_1wire.Prelude.{
  ℕ, ◌≤◌, ◌<◌, false, List, [], ◌∷◌, ◌++◌, ◌≡◌, ◌≢◌, refl, arith, replicate, get_or, drop,
}
use stm32_async_1wire.Wire.{
  present, encode_byte, decode_overlaid, decode_pulses, decode_bits, bit_from_pulse, crc8,
  crc8_bits, crc16, crc16_bits,
}
use stm32_async_1wire.Wire.Codec.{message, decode_pulses-message, decode_overlaid_sound}
use stm32_async_1wire.Wire.Check.{crc8_detects_byte, crc16_detects_byte}

-- The example ROM of Maxim's application note 27.
abbrev example_rom : List ℕ
example_rom = 0x02 ∷ 0x1c ∷ 0xb8 ∷ 0x01 ∷ 0x00 ∷ 0x00 ∷ 0x00 ∷ 0xa2 ∷ []

crc8-example_rom : crc8 example_rom 7 ≡ 0xa2
unfolding crc8 crc8_bits
crc8-example_rom = refl

crc16-one_byte : crc16 (0x01 ∷ []) 1 ≡ 0xc0c1
unfolding crc16 crc16_bits
crc16-one_byte = refl

encode_byte-skip : encode_byte (replicate 9 7) 0 0xcc ≡ 60 ∷ 60 ∷ 5 ∷ 5 ∷ 60 ∷ 60 ∷ 5 ∷ 5 ∷ 7 ∷ []
unfolding encode_byte
encode_byte-skip = refl

decode_pulses-skip : decode_pulses (0 ∷ []) (30 ∷ 60 ∷ 5 ∷ 10 ∷ 11 ∷ 60 ∷ 5 ∷ 5 ∷ []) 1 ≡ 0xcc ∷ []
unfolding decode_pulses decode_bits bit_from_pulse
decode_pulses-skip = refl

present-edges : present (500 ∷ 600 ∷ []) 1 ≡ false
unfolding present
present-edges = refl

-- The message of two bytes, captured and decoded.
decode_pulses-message_example :
    decode_pulses (9 ∷ 9 ∷ 9 ∷ []) (message (0xa5 ∷ 0x5a ∷ []) ++ 7 ∷ []) 2
    ≡ (0xa5 ∷ 0x5a ∷ []) ++ drop 2 (9 ∷ 9 ∷ 9 ∷ [])
decode_pulses-message_example =
    decode_pulses-message (0xa5 ∷ 0x5a ∷ []) (9 ∷ 9 ∷ 9 ∷ []) (7 ∷ []) (ground arith) (omega arith)

decode_overlaid_sound_example :
    ((i : ℕ)
      → i < 2
      → get_or (decode_overlaid (replicate 16 5) 2) i 0
        ≡ get_or (decode_pulses (0 ∷ 0 ∷ []) (replicate 16 5) 2) i 0)
    × ((i : ℕ)
        → 2 ≤ i
        → get_or (decode_overlaid (replicate 16 5) 2) i 0 ≡ get_or (replicate 16 5) i 0)
decode_overlaid_sound_example =
    decode_overlaid_sound (replicate 16 5) (0 ∷ 0 ∷ []) 2 (omega arith) (omega arith)

crc8_detects_byte_example :
    crc8 (0x02 ∷ 0x1c ∷ 0xb8 ∷ 0x01 ∷ []) 4 ≢ crc8 (0x02 ∷ 0x1c ∷ 0xb9 ∷ 0x01 ∷ []) 4
crc8_detects_byte_example =
    crc8_detects_byte (0x02 ∷ 0x1c ∷ []) (0x01 ∷ []) 0xb8 0xb9 (ground arith) (ground arith)
      (omega arith) (omega arith) (λ e. absurd (omega arith))

crc16_detects_byte_example :
    crc16 (0xaa ∷ 0x0f ∷ 0x00 ∷ 0x01 ∷ []) 4 ≢ crc16 (0xaa ∷ 0x1f ∷ 0x00 ∷ 0x01 ∷ []) 4
crc16_detects_byte_example =
    crc16_detects_byte (0xaa ∷ []) (0x00 ∷ 0x01 ∷ []) 0x0f 0x1f (ground arith) (ground arith)
      (omega arith) (omega arith) (λ e. absurd (omega arith))
