-- ===== src/Ds18b20/Request.antt =====
-- What a measurement puts on the wire: `issue_command`, `build_skip_cmd` and `build_addr_cmd` of
-- src/ds18b20_measure.c and src/ds18b20.c.
use stm32_async_1wire.Prelude.{
  ℕ, suc, ◌+◌, ◌*◌, ◌≤◌, true, false, List, [], ◌∷◌, ◌++◌, set, take, length, All, ◌≡◌, refl, sym,
  arith, ◌∙◌, length-append, Bool-cases, inl, inr,
}
use stm32_async_1wire.Wire.{Build, put_byte, encode_byte, encode_skip_rom, release_pulse}
use stm32_async_1wire.Wire.Codec.{
  IsByte, IsBuilt, message, length-message, prefix, encode_prefix-IsBuilt, put_byte-IsBuilt,
  release_after,
}
use stm32_async_1wire.Port.Slots.{Sends}
use stm32_async_1wire.OneWire.Sends.{bus-Sends}
use stm32_async_1wire.Ds18b20.Context.{World, build_addr_cmd}
use stm32_async_1wire.Ds18b20.Measure.{send_command, build_skip_cmd}

-- The table behind a prefix and a command, in the slots that the driver counts for it.
built_table :
    (msg_bytes : List ℕ) (p : Build) (cmd_byte cursor : ℕ)
    → length msg_bytes ≤ 9
    → cursor ≡ 8 * length msg_bytes
    → IsByte cmd_byte
    → IsBuilt p msg_bytes 105
    → take (suc (cursor + 8)) (set (encode_byte p.table cursor cmd_byte) (cursor + 8) release_pulse)
      ≡ message (msg_bytes ++ cmd_byte ∷ []) ++ release_pulse ∷ []
unfolding put_byte
built_table msg_bytes p cmd_byte cursor short e h built =
    let whole = put_byte-IsBuilt p msg_bytes cmd_byte 105 h (omega arith) built in
    let size = length-append msg_bytes (cmd_byte ∷ []) in
    let at : p.cursor ≡ cursor = omega (arith, built.cursor_is, length-message msg_bytes) in
    let count : 8 * length (msg_bytes ++ cmd_byte ∷ []) ≡ cursor + 8 = omega arith in
    rw (count, at) at (release_after _ (msg_bytes ++ cmd_byte ∷ []) 105 (omega arith) whole)

-- The slots of a command behind a prefix.
slot_count :
    (rom : List ℕ) (cmd_byte : ℕ)
    → length rom ≡ 8
    → length (message (0x55 ∷ rom ++ cmd_byte ∷ [])) ≡ 80
slot_count rom cmd_byte h =
    length-message (0x55 ∷ rom ++ cmd_byte ∷ []) ∙ omega (arith, length-append rom (cmd_byte ∷ []))

-- A measurement command goes out as its message, behind Match ROM with the selected ROM or behind Skip
-- ROM, and the line is released behind it.
pub measure_command-Sends :
    (w : World) (cmd_byte : ℕ)
    → length w.owner.pulses ≡ 105
    → length w.owner.ctx.selected_rom ≡ 8
    → All IsByte w.owner.ctx.selected_rom
    → IsByte cmd_byte
    → Sends
        (send_command w cmd_byte).port
        (message (prefix w.owner.ctx.address_mode w.owner.ctx.selected_rom ++ cmd_byte ∷ []))
unfolding send_command build_addr_cmd build_skip_cmd encode_skip_rom put_byte
measure_command-Sends w cmd_byte size room bytes h =
    let c = w.owner.ctx in
    let count = slot_count c.selected_rom cmd_byte room in
    let built =
      encode_prefix-IsBuilt c.address_mode w.owner.pulses c.selected_rom 105 size (omega arith) room
        bytes in
    elim (Bool-cases c.address_mode) [
      | inl m ↦ rw m (
          bus-Sends _ _ (message (prefix true c.selected_rom ++ cmd_byte ∷ [])) 80 (sym count)
            (rw count (omega arith)) (rw count (omega arith))
            (built_table (prefix true c.selected_rom) _ cmd_byte 72 (omega arith) (omega arith) h
              (rw m at built)))
      | inr m ↦ rw m (
          bus-Sends _ _ (message (prefix false c.selected_rom ++ cmd_byte ∷ [])) 16 refl
            (omega arith) (omega arith)
            (built_table (prefix false c.selected_rom) _ cmd_byte 8 (omega arith) (omega arith) h
              (rw m at built)))
    ]
