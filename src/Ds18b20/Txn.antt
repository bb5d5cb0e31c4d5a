-- ===== src/Ds18b20/Txn.antt =====
-- The command transactions: src/ds18b20_txn.c.
use stm32_async_1wire.Prelude.{
  ℕ, ◌+◌, ◌*◌, ◌/◌, min, Bool, true, false, not, ◌&&◌, List, [], ◌∷◌, ◌++◌, Option, none, some,
  get_or, set, take, drop, ◌==◌, if◌then◌else◌, bit_and,
}
use stm32_async_1wire.Wire.{
  Build, put_byte, encode_match_rom, encode_skip_rom, encode_bytes, decode_pulses, release_pulse,
  bits_per_byte, u8, crc8,
}
use stm32_async_1wire.Port
use stm32_async_1wire.OneWire.{
  reset_bus, op_done, has_presence, write_slots, read_data, strong_pullup, start_wait,
}
use stm32_async_1wire.Ds18b20.Context.{
  TxnPhase, World, put_ctx, put_txn, is_free, capture_view, res_config_byte, read_rom,
  read_scratchpad, write_scratchpad, copy_scratchpad, recall_eeprom, read_power_supply,
  scratchpad_len, crc8_bytes, res_min, reset, write, read, wait, done,
}

-- `txn_can_start`.
unfoldable pub txn_can_start : World → Bool
txn_can_start w = is_free w && not w.owner.ctx.scan_mode

-- `txn_build_pulses`.
unfoldable pub txn_build_pulses : World → World
txn_build_pulses w =
    let d = w.owner in
    let t = d.txn in
    let use_match = d.ctx.address_mode && not d.ctx.scan_mode && not t.bare in
    let start : Build = record { table = d.pulses; cursor = 0 } in
    let (p0, n0) =
      if t.bare
      then (start, 0)
      else if use_match
      then encode_match_rom start d.ctx.selected_rom
      else encode_skip_rom start in
    let (p1, n1) = encode_bytes (put_byte p0 t.command) t.payload t.payload_len in
    let bytes = u8 (u8 (n0 + 1) + n1) in
    let slots = u8 (bytes * bits_per_byte) in
    record w {
      owner = record d {
        txn = record t { slots = slots };
        pulses = set p1.table slots release_pulse;
      };
    }

-- `txn_decode_read`: `ctx.pulse` and `raw` are different storage.
unfoldable pub txn_decode_read : World → World
txn_decode_read w =
    let t = w.owner.txn in
    put_txn w (record t { raw = decode_pulses t.raw w.owner.ctx.storage t.read_bytes })

-- The result buffer after `txn_copy_out`, where there is one of at least `len` bytes.
unfoldable pub copied : Option (List ℕ) → List ℕ → ℕ → Option (List ℕ)
copied none raw len = none
copied (some out) raw len = some (take len raw ++ drop len out)

-- `txn_copy_out`.
unfoldable pub txn_copy_out : World → ℕ → World
txn_copy_out w len = let t = w.owner.txn in put_txn w (record t { out = copied t.out t.raw len })

-- The strong pull-up where the bus is parasite-powered.
abbrev pub parasite_pullup : World → Bool → World
parasite_pullup w on = if w.owner.ctx.parasite then strong_pullup w on else w

-- `txn_poll` in phase WRITE.
unfoldable pub txn_after_write : World → World
txn_after_write w =
    let t = w.owner.txn in
    if not (t.read_bytes == 0)
    then (let w' = (read_data (parasite_pullup w false) Port.driver_pulse t.read_bytes).0 in
        put_txn w' (record (w'.owner.txn) { phase = read }))
    else if not (t.wait_us == 0)
    then (let w' = start_wait (parasite_pullup w true) t.wait_us in
        put_txn w' (record (w'.owner.txn) { phase = wait }))
    else (let w' = parasite_pullup w false in
        put_txn w' (record (w'.owner.txn) { ok = true; phase = done }))

-- The `switch` of `txn_poll`.
unfoldable pub txn_switch : TxnPhase → World → World
txn_switch reset w =
    if not (has_presence w (capture_view w.owner.ctx.storage))
    then put_txn w (record (w.owner.txn) { phase = done })
    else (let w' = parasite_pullup w true in
        let w'' = (write_slots w' w'.owner.pulses w'.owner.txn.slots).0 in
        put_txn w'' (record (w''.owner.txn) { phase = write }))
txn_switch write w = txn_after_write w
txn_switch read w =
    let w' = txn_decode_read w in put_txn w' (record (w'.owner.txn) { ok = true; phase = done })
txn_switch wait w =
    let w' = strong_pullup w false in put_txn w' (record (w'.owner.txn) { ok = true; phase = done })
txn_switch done w = w

-- `txn_poll` of a running transaction, by its phase.
unfoldable pub txn_poll_phase : TxnPhase → World → World × Bool
txn_poll_phase done w = (put_txn w (record (w.owner.txn) { finished = true }), true)
txn_poll_phase phase w =
    let (w', is_done) = op_done w in
    if not is_done then (w', false) else (txn_switch phase w', false)

-- `txn_poll`, which is also `ds18b20_set_alarm_thresholds_poll`, `ds18b20_copy_scratchpad_poll` and
-- `ds18b20_recall_eeprom_poll`.
unfoldable pub txn_poll : World → World × Bool
txn_poll w = if w.owner.txn.finished then (w, true) else txn_poll_phase w.owner.txn.phase w

-- `txn_start`. `payload` holds the bytes given; the context keeps three.
unfoldable pub txn_start : World → ℕ → Option (List ℕ) → List ℕ → ℕ → ℕ → ℕ → Bool → World
txn_start w command out payload payload_len read_bytes wait_us bare =
    if not (txn_can_start w)
    then w
    else (let t = w.owner.txn in
        let kept = min payload_len 3 in
        let w1 =
          strong_pullup
            (txn_build_pulses (
              put_txn w (record t {
                command = command;
                out = out;
                read_bytes = read_bytes;
                wait_us = wait_us;
                payload_len = payload_len;
                payload = take kept payload ++ drop kept t.payload;
                bare = bare;
                ok = false;
                finished = false;
              })))
            false in
        reset_bus (put_txn w1 (record (w1.owner.txn) { phase = reset })) Port.driver_capture)

-- `ds18b20_read_rom`.
unfoldable pub start_read_rom : World → Option (List ℕ) → World
start_read_rom w rom = txn_start w read_rom rom [] 0 8 0 true

-- `ds18b20_read_rom_poll`.
unfoldable pub read_rom_poll : World → World × Bool
read_rom_poll w =
    let (w', is_done) = txn_poll w in
    if not is_done then (w', false) else (if w'.owner.txn.ok then txn_copy_out w' 8 else w', true)

-- `ds18b20_set_alarm_thresholds`.
unfoldable pub set_alarm_thresholds : World → ℕ → ℕ → World
set_alarm_thresholds w th tl =
    txn_start w write_scratchpad none (th ∷ tl ∷ res_config_byte w.owner.ctx.resolution ∷ []) 3 0 0
      false

-- `ds18b20_read_scratchpad`.
unfoldable pub start_read_scratchpad : World → Option (List ℕ) → World
start_read_scratchpad w buf = txn_start w read_scratchpad buf [] 0 scratchpad_len 0 false

-- The resolution that a configuration byte stands for, as two polls derive it.
abbrev pub config_resolution : ℕ → ℕ
config_resolution config = res_min + bit_and (config / 32) 3

-- The end of `ds18b20_read_scratchpad_poll`: copy, and follow a valid configuration byte.
unfoldable pub take_scratchpad : World → World
take_scratchpad w =
    let w' = txn_copy_out w scratchpad_len in
    let raw = w'.owner.txn.raw in
    if get_or raw 8 0 == crc8 raw crc8_bytes
    then put_ctx w' (record (w'.owner.ctx) { resolution = config_resolution (get_or raw 4 0) })
    else w'

abbrev has_out : Option (List ℕ) → Bool
has_out none = false
has_out (some out) = true

-- `ds18b20_read_scratchpad_poll`.
unfoldable pub read_scratchpad_poll : World → World × Bool
read_scratchpad_poll w =
    let (w', is_done) = txn_poll w in
    if not is_done
    then (w', false)
    else (if w'.owner.txn.ok && has_out w'.owner.txn.out then take_scratchpad w' else w', true)

-- `ds18b20_copy_scratchpad`.
unfoldable pub start_copy_scratchpad : World → World
start_copy_scratchpad w = txn_start w copy_scratchpad none [] 0 0 10000 false

-- `ds18b20_recall_eeprom`.
unfoldable pub start_recall_eeprom : World → World
start_recall_eeprom w = txn_start w recall_eeprom none [] 0 0 10000 false

-- `ds18b20_last_command_ok`.
unfoldable pub last_command_ok : World → Bool
last_command_ok w = w.owner.txn.ok

-- `ds18b20_set_parasite`.
unfoldable pub set_parasite : World → ℕ → World
set_parasite w parasite = put_ctx w (record (w.owner.ctx) { parasite = not (parasite == 0) })

-- `ds18b20_detect_parasite`, with the static `detect_buf`.
unfoldable pub detect_parasite : World → World
detect_parasite w = txn_start w read_power_supply (some (0 ∷ [])) [] 0 1 0 false

-- `ds18b20_detect_parasite_poll`.
unfoldable pub detect_parasite_poll : World → World × Bool
detect_parasite_poll w =
    let (w', is_done) = txn_poll w in
    if not is_done then (w', false) else (
      if w'.owner.txn.ok
          then put_ctx w'
              (record (w'.owner.ctx) { parasite = bit_and (get_or w'.owner.txn.raw 0 0) 1 == 0 })
          else w',
      true,
    )
