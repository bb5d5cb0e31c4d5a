-- ===== src/Ds18b20/Measure.antt =====
-- The measurement state machine: src/ds18b20_measure.c. The hooks of the bus statistics, which the
-- default build compiles to nothing, are left out.
use stm32_async_1wire.Prelude.{
  ℕ, zero, suc, ◌+◌, ◌/◌, Bool, true, false, not, ◌&&◌, ◌||◌, List, [], get_or, set, take, ltb,
  ◌==◌, if◌then◌else◌, bit_and,
}
use stm32_async_1wire.Prelude.Int.{ℤ}
use stm32_async_1wire.Wire.{encode_skip_rom, encode_byte, release_pulse, bits_per_byte, u8}
use stm32_async_1wire.Port
use stm32_async_1wire.OneWire.{
  reset_bus, op_done, has_presence, write_slots, read_data, strong_pullup, start_wait, timer_kick,
}
use stm32_async_1wire.Ds18b20.Context.{
  State, Ctx, World, put_ctx, put_state, call_back, busy, complete, is_free, capture_view,
  build_addr_cmd, decode_scratchpad, check_scratchpad_crc, decode_temperature, resolution_wait_us,
  convert_t, read_scratchpad, scratchpad_len, match_slots, dma_transfers, res_min,
  temp_error_no_sensor, temp_error_crc_fail, idle, start, convert, wait, continue, request, read,
  decode,
}
use stm32_async_1wire.OneWire.{search_active}

abbrev scan_device_gap_us : ℕ
scan_device_gap_us = 1000

-- The strong pull-up where the bus is parasite-powered.
unfoldable pub parasite_pullup : World → Bool → World
parasite_pullup w on = if w.owner.ctx.parasite then strong_pullup w on else w

-- `scan_finish_or_next`.
unfoldable pub scan_finish_or_next : World → World
scan_finish_or_next w =
    if not w.owner.ctx.scan_mode
    then parasite_pullup w true
    else (let index = u8 (w.owner.ctx.scan_index + 1) in
        let w' = put_ctx w (record (w.owner.ctx) { scan_index = index }) in
        if ltb index w.owner.dev_count
        then start_wait (put_state w' continue) scan_device_gap_us
        else parasite_pullup (put_state w' idle) true)

-- `ds18b20_start_measure`.
unfoldable pub start_measure : World → World
start_measure w = if not (is_free w) then w else timer_kick (put_state w start)

-- `ds18b20_scan_start`.
unfoldable pub scan_start : World → World
scan_start w =
    if not (is_free w)
    then w
    else if w.owner.dev_count == 0
    then w
    else put_ctx w (record (w.owner.ctx) { scan_mode = true; scan_index = 0 })

-- `ds18b20_scan_index`.
unfoldable pub scan_index : World → ℕ
scan_index w = w.owner.ctx.scan_index

-- `build_skip_cmd`.
unfoldable pub build_skip_cmd : List ℕ → ℕ → List ℕ
build_skip_cmd table cmd_byte =
    let p = (encode_skip_rom (record { table = table; cursor = 0 })).0 in
    set (encode_byte p.table p.cursor cmd_byte) (p.cursor + bits_per_byte) release_pulse

-- `issue_command` where a device answered the reset.
unfoldable pub send_command : World → ℕ → World
send_command w cmd_byte =
    if w.owner.ctx.address_mode
    then (let w' = build_addr_cmd w cmd_byte in (write_slots w' w'.owner.pulses match_slots).0)
    else (let w' = record w {
      owner = record (w.owner) { pulses = build_skip_cmd w.owner.pulses cmd_byte };
    } in
        (write_slots w' w'.owner.pulses dma_transfers).0)

-- `issue_command`.
unfoldable pub issue_command : World → ℕ → State → World
issue_command w cmd_byte next_state =
    if not (has_presence w (capture_view w.owner.ctx.storage))
    then parasite_pullup
        (call_back (call_back (put_state w idle) (busy 0)) (complete temp_error_no_sensor)) true
    else put_state (send_command w cmd_byte) next_state

-- Whether the first `n` bytes are all 0xFF.
unfoldable pub all_ones : ℕ → List ℕ → Bool
all_ones zero s = true
all_ones (suc n) s = get_or s n 0 == 0xff && all_ones n s

-- What DECODE reports of a decoded scratchpad, and the resolution it leaves.
unfoldable pub verdict : Ctx → ℤ × ℕ
verdict c =
    let s = c.storage in
    if c.address_mode && all_ones scratchpad_len s
    then (temp_error_no_sensor, c.resolution)
    else if not (get_or s 5 0 == 0xff) || not (get_or s 7 0 == 0x10)
    then (temp_error_crc_fail, c.resolution)
    else if get_or s 8 0 == check_scratchpad_crc c
    then (decode_temperature (get_or s 0 0) (get_or s 1 0), res_min + bit_and (get_or s 4 0 / 32) 3)
    else (temp_error_crc_fail, c.resolution)

-- `ds18b20_poll` in state START.
unfoldable pub poll_start : World → World
poll_start w =
    put_state (reset_bus (parasite_pullup (call_back w (busy 1)) false) Port.driver_capture) convert

-- `ds18b20_poll` in state CONVERT.
unfoldable pub poll_convert : World → World
poll_convert w =
    let w' =
      if w.owner.ctx.scan_mode
      then put_ctx w (record (w.owner.ctx) { scan_index = 0; address_mode = false })
      else w in
    issue_command (parasite_pullup w' true) convert_t wait

-- `ds18b20_poll` in state REQUEST.
unfoldable pub poll_request : World → World
poll_request w =
    let c = w.owner.ctx in
    let w' =
      if c.scan_mode
      then put_ctx w (record c {
        selected_rom = take 8 (get_or w.owner.dev_roms c.scan_index []);
        address_mode = true;
      })
      else w in
    issue_command (parasite_pullup w' true) read_scratchpad read

-- `ds18b20_poll` in state DECODE, after the callback `ds18b20_busy(0)`: report, and go on.
unfoldable pub report : World → Ctx → World
report w c =
    let (t, res) = verdict c in
    scan_finish_or_next (call_back (put_ctx w (record c { resolution = res })) (complete t))

-- `ds18b20_poll` in state DECODE.
unfoldable pub poll_decode : World → World
poll_decode w =
    let c = decode_scratchpad w.owner.ctx in
    report (call_back w (busy 0)) (if c.scan_mode then c else record c { current_state = idle })

-- The `switch` of `ds18b20_poll`. `default` has no state left.
unfoldable pub poll_state : State → World → World
poll_state idle w = if w.owner.ctx.scan_mode then poll_start (put_state w start) else w
poll_state start w = poll_start w
poll_state convert w = poll_convert w
poll_state wait w =
    put_state (start_wait (parasite_pullup w true) (resolution_wait_us w.owner.ctx.resolution))
      continue
poll_state continue w = put_state (reset_bus (strong_pullup w false) Port.driver_capture) request
poll_state request w = poll_request w
poll_state read w =
    put_state (read_data (parasite_pullup w false) Port.driver_pulse scratchpad_len).0 decode
poll_state decode w = poll_decode w

-- `ds18b20_poll`.
unfoldable pub poll : World → World
poll w =
    if search_active w || not w.owner.res.finished || not w.owner.txn.finished
    then w
    else (let (w', is_done) = op_done w in
        if not is_done then w' else poll_state w'.owner.ctx.current_state w')
