-- ===== src/Ds2431/Tests.antt =====
-- Runs of the driver's theorems at concrete inputs.
use stm32_async_1wire.Prelude.{true, [], ◌∷◌, ◌++◌, some, replicate, ◌≡◌, refl, arith}
use stm32_async_1wire.Wire.{decode_pulses, decode_bits, bit_from_pulse, crc16, crc16_bits}
use stm32_async_1wire.Wire.Codec.{message}
use stm32_async_1wire.Port.Slots.{Sends}
use stm32_async_1wire.OneWire.{search_active}
use stm32_async_1wire.Ds2431.Samples.{reading, parked}
use stm32_async_1wire.Ds2431.Context.{World, put}
use stm32_async_1wire.Ds2431.Txn.{
  start, can_start, send_command, take_answer, read_ok, echo_ok, same_payload, scratchpad_data_len,
  scratchpad_crc_ok,
}
use stm32_async_1wire.Ds2431.Memory.{write_scratchpad, out_of_range}
use stm32_async_1wire.Ds2431.Command.{IsSized, command_bytes, send_command-Sends}
use stm32_async_1wire.Ds2431.Progress.{polls_left, settle, settle-finished}
use stm32_async_1wire.Ds2431.Integrity.{IsVerified, take_answer-IsVerified}

abbrev copying : World
copying = put reading (record (reading.owner) { command = 0x55; len = 1 })

accepted : (write_scratchpad parked 16 (some (1 ∷ 2 ∷ [])) 2).1 ≡ true
unfolding write_scratchpad out_of_range start can_start search_active
accepted = refl

parked-IsSized : IsSized parked.owner
parked-IsSized = record {
  table_size = refl;
  rom_size = refl;
  payload_size = refl;
  plen_le = omega arith;
  rom_bytes = ground arith;
  payload_bytes = ground arith;
  lo_byte = omega arith;
  hi_byte = omega arith;
  es_byte = omega arith;
}

send_command-Sends_example :
    Sends (send_command parked).port (message (command_bytes parked.owner 0x0f))
send_command-Sends_example = send_command-Sends parked parked-IsSized (omega arith)

-- The device's reply to the scratchpad read, as its pulses: header, one byte, inverted check sum.
abbrev replied : World
replied = put reading (record (reading.owner) {
  u = message (0 ∷ 0 ∷ 0 ∷ 0 ∷ 0xe7 ∷ 0xe7 ∷ []) ++ replicate 113 5;
  len = 6;
})

replied_ok : (take_answer replied).owner.ok ≡ true
unfolding take_answer read_ok decode_pulses decode_bits bit_from_pulse scratchpad_data_len
    scratchpad_crc_ok crc16 crc16_bits echo_ok same_payload
replied_ok = refl

take_answer-IsVerified_example :
    let c = (take_answer replied).owner in IsVerified (scratchpad_data_len c.raw) c
take_answer-IsVerified_example = take_answer-IsVerified replied refl refl replied_ok

settle-finished_example : (settle 2 reading).owner.finished ≡ true
settle-finished_example =
    settle-finished 2 reading (unfold polls_left in omega arith) (unfold polls_left in omega arith)
