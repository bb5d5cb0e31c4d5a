-- ===== src/Ds18b20/Resolution.antt =====
-- The resolution change: src/ds18b20_resolution.c.
use stm32_async_1wire.Prelude.{ℕ, Bool, true, false, not, ◌&&◌, ◌||◌, set, ltb, if◌then◌else◌}
use stm32_async_1wire.Wire.{
  Build, put_byte, encode_match_rom, encode_skip_rom, encode_byte, release_pulse,
}
use stm32_async_1wire.Port
use stm32_async_1wire.OneWire.{reset_bus, op_done, has_presence, write_slots}
use stm32_async_1wire.Ds18b20.Context.{
  ResPhase, World, put_ctx, put_res, is_free, capture_view, write_scratchpad, res_config_byte,
  res_slots_min, res_slots_max, res_min, res_max, reset, write, done,
}

-- `build_res_pulses`.
unfoldable pub build_res_pulses : World → ℕ → World
build_res_pulses w res =
    let d = w.owner in
    let use_match = d.ctx.address_mode && not d.ctx.scan_mode in
    let start : Build = record { table = d.pulses; cursor = 0 } in
    let p0 =
      if use_match
      then (encode_match_rom start d.ctx.selected_rom).0
      else (encode_skip_rom start).0 in
    let p1 = put_byte (put_byte (put_byte p0 write_scratchpad) 0) 0 in
    let table = encode_byte p1.table p1.cursor (res_config_byte res) in
    let slots = if use_match then res_slots_max else res_slots_min in
    record w {
      owner = record d {
        pulses = set table slots release_pulse;
        res = record (d.res) { slots = slots };
      };
    }

-- `ds18b20_set_resolution`.
unfoldable pub set_resolution : World → ℕ → World
set_resolution w bits =
    if ltb bits res_min || ltb res_max bits
    then w
    else if not (is_free w)
    then w
    else (let w1 =
          build_res_pulses
            (put_res w
              (record (w.owner.res) { pending_res = bits; applied = false; finished = false }))
            bits in
        reset_bus (put_res w1 (record (w1.owner.res) { phase = reset })) Port.driver_capture)

-- The `switch` of `ds18b20_set_resolution_poll`.
unfoldable pub res_switch : ResPhase → World → World
res_switch reset w =
    if not (has_presence w (capture_view w.owner.ctx.storage))
    then put_res w (record (w.owner.res) { phase = done })
    else (let w' = (write_slots w w.owner.pulses w.owner.res.slots).0 in
        put_res w' (record (w'.owner.res) { phase = write }))
res_switch write w = put_res w (record (w.owner.res) { applied = true; phase = done })
res_switch done w = w

-- `ds18b20_set_resolution_poll` of a running change, by its phase.
unfoldable pub res_poll_phase : ResPhase → World → World × Bool
res_poll_phase done w =
    let w1 =
      if w.owner.res.applied
      then put_ctx w (record (w.owner.ctx) { resolution = w.owner.res.pending_res })
      else w in
    (put_res w1 (record (w1.owner.res) { finished = true }), true)
res_poll_phase phase w =
    let (w', is_done) = op_done w in
    if not is_done then (w', false) else (res_switch phase w', false)

-- `ds18b20_set_resolution_poll`.
unfoldable pub set_resolution_poll : World → World × Bool
set_resolution_poll w =
    if w.owner.res.finished then (w, true) else res_poll_phase w.owner.res.phase w

-- `ds18b20_get_resolution`.
unfoldable pub get_resolution : World → ℕ
get_resolution w = w.owner.ctx.resolution
