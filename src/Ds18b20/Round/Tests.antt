-- ===== src/Ds18b20/Round/Tests.antt =====
-- A round over two devices, of which the second reads a scratchpad with a wrong check sum.
use stm32_async_1wire.Prelude.{ℕ, List, [], ◌∷◌, ◌++◌, replicate, ◌≡◌, refl, arith}
use stm32_async_1wire.Prelude.Int.{pos}
use stm32_async_1wire.Wire.{crc8, crc8_bits, decode_overlaid, decode_bits, bit_from_pulse, present}
use stm32_async_1wire.Wire.Codec.{message}
use stm32_async_1wire.Port.Samples.{idle_port}
use stm32_async_1wire.Port
use stm32_async_1wire.Port.Slots.{Sends}
use stm32_async_1wire.Ds18b20.Context.{
  busy, complete, capture_view, decode_temperature, temp_error_crc_fail,
}
use stm32_async_1wire.Ds18b20.Measure.{send_command, all_ones}
use stm32_async_1wire.Ds18b20.Samples.{fleet}
use stm32_async_1wire.Ds18b20.Request.{measure_command-Sends}
use stm32_async_1wire.Ds18b20.Round.{Event, Opening, Turn, round_told}

abbrev event : List ℕ → Event
event storage = record { port = idle_port; pair = []; triple = []; storage = storage }

-- Reset pulses of 480 and 120 microseconds.
abbrev presence : Event
presence = event (224 ∷ 1 ∷ 88 ∷ 2 ∷ replicate 68 0)

abbrev opening : Opening
opening = record { kicked = event []; presence = presence; sent = event [] }

-- A turn in which a device answers with these bytes.
abbrev answers : List ℕ → Turn
answers bytes = record {
  gap = event [];
  presence = presence;
  sent = event [];
  answer = event (message bytes);
}

abbrev warm : List ℕ
warm = 0x91 ∷ 0x01 ∷ 75 ∷ 70 ∷ 0x7f ∷ 0xff ∷ 0x0c ∷ 0x10 ∷ []

abbrev turns : List Turn
turns = answers (warm ++ crc8 warm 8 ∷ []) ∷ answers (warm ++ 0 ∷ []) ∷ []

round_told_warm :
    round_told opening turns
    ≡ busy 1 ∷ busy 0 ∷ complete (pos 251) ∷ busy 0 ∷ complete temp_error_crc_fail ∷ []
unfolding present Port.reset_captured capture_view decode_overlaid crc8 decode_temperature all_ones
    decode_bits bit_from_pulse crc8_bits
round_told_warm = refl

measure_command-Sends_example :
    Sends
      (send_command fleet 0xbe).port
      (message ((0x55 ∷ 0x28 ∷ 1 ∷ 2 ∷ 3 ∷ 4 ∷ 5 ∷ 6 ∷ 7 ∷ []) ++ 0xbe ∷ []))
measure_command-Sends_example =
    measure_command-Sends fleet 0xbe refl refl (ground arith) (omega arith)
