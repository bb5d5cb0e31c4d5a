-- ===== src/Recorder/Step.antt =====
-- The states of the recorder: examples/9_multi/main.c from `boot_read_start` to the loop of `main`. One
-- `step` is one round of that loop.
use stm32_async_1wire.Prelude.{
  ℕ, zero, suc, ◌+◌, Bool, true, false, not, ◌&&◌, ◌||◌, List, [], ◌∷◌, get_or, set, replicate, ltb,
  leb, ◌==◌, if◌then◌else◌,
}
use stm32_async_1wire.Prelude.Int.{ℤ, ltb_ℤ}
use stm32_async_1wire.Wire.{u8, u32}
use stm32_async_1wire.OneWire.{same_bytes}
use stm32_async_1wire.Ds18b20.Context.{max_devices, temp_error_generic}
use stm32_async_1wire.Recorder.{
  State, Drivers, Recorder, search_ds18, search_all, boot_read, measure_start, measure_wait,
  write_scratch, write_verify, write_copy, write_readback, waiting, stop, slot_peak, slot_low,
  rec_bytes, boot_addr, no_job,
}
use stm32_async_1wire.Recorder.Records.{
  Extremes, time_reached, expired, go_wait, slot_at, boot_done, queue_extreme, commit_job,
  commit_jobs, write_abort, extremes, is_measured,
}

-- `all_sink`.
unfoldable pub all_sink : {D : Type 0} → Recorder D → List ℕ → Recorder D
all_sink r rom =
    let family = get_or rom 0 0 in
    if family == 0x28
    then r
    else if family == 0x2d
    then record r {
      ds2431_n = u8 (r.ds2431_n + 1);
      ds2431_rom = if r.have_ds2431 then r.ds2431_rom else rom;
      have_ds2431 = true;
    }
    else if family == 0x3a
    then record r { ds2413_n = u8 (r.ds2413_n + 1) }
    else record r { other_n = u8 (r.other_n + 1) }

unfoldable pub all_found : {D : Type 0} → Recorder D → List (List ℕ) → Recorder D
all_found r [] = r
all_found r (rom ∷ roms) = all_found (all_sink r rom) roms

-- `ds18b20_complete`, for a temperature with its scan index.
unfoldable pub complete : {D : Type 0} → Recorder D → ℤ × ℕ → Recorder D
complete r (temp, scan_index) =
    let idx = if r.seq_mode then r.seq_cur else scan_index in
    let r' =
      if ltb idx max_devices
      then record r {
        temps = set r.temps idx temp;
        temps_ok = set r.temps_ok idx (is_measured temp);
      }
      else r in
    record r' { reported = u8 (r.reported + 1) }

unfoldable pub completed : {D : Type 0} → Recorder D → List (ℤ × ℕ) → Recorder D
completed r [] = r
completed r (result ∷ results) = completed (complete r result) results

-- The loop of `first_bad` from sensor `i` on.
unfoldable pub first_bad_from : ℕ → ℕ → List Bool → ℕ
first_bad_from zero i temps_ok = i
first_bad_from (suc left) i temps_ok =
    let rest = first_bad_from left (suc i) temps_ok in
    if not (get_or temps_ok i false) then i else rest

-- `first_bad`.
unfoldable pub first_bad : {D : Type 0} → Recorder D → ℕ
first_bad r = first_bad_from r.ds18_n 0 r.temps_ok

module _ {D : Type 0} (ops : Drivers D) where
  -- `boot_read_start`.
  unfoldable pub boot_read_start : Recorder D → Recorder D
  boot_read_start r = record r {
    drivers = ops.read_memory r.drivers (boot_addr r.boot_step) rec_bytes;
    deadline_ms = u32 (r.now + 1000);
  }

  -- The start of the measurement of sensor `seq_cur`.
  unfoldable pub measure_current : Recorder D → Recorder D
  measure_current r = record r {
    drivers = ops.start_measure (ops.select r.drivers (ops.device_rom r.drivers r.seq_cur));
    deadline_ms = u32 (r.now + 2000);
  }

  -- `start_round`.
  unfoldable pub start_round : Recorder D → Recorder D
  start_round r =
      let r' = record r {
        reported = 0;
        scan_drain = false;
        cycle_no = u32 (r.cycle_no + 1);
        temps = replicate max_devices temp_error_generic;
        temps_ok = replicate max_devices false;
        state = measure_wait;
      } in
      if not r'.seq_mode
      then record r' {
        drivers = ops.start_measure (ops.scan_start r'.drivers);
        deadline_ms = u32 (r'.now + 4000);
      }
      else measure_current (record r' { seq_cur = 0 })

  -- `switch_to_sequential`.
  unfoldable pub switch_to_sequential : Recorder D → Recorder D
  switch_to_sequential r =
      go_wait
        (record r { seq_mode = true; drivers = ops.select r.drivers (ops.device_rom r.drivers 0) })

  -- `start_job`.
  unfoldable pub start_job : Recorder D → Recorder D
  start_job r =
      let j = get_or r.jobs r.job_i no_job in
      let (d, accepted) = ops.write_scratchpad r.drivers j.addr j.image rec_bytes in
      let r' = record r { drivers = d } in
      if not accepted
      then write_abort r'
      else record r' { deadline_ms = u32 (r.now + 1000); state = write_scratch }

  -- `job_done`.
  unfoldable pub job_done : Recorder D → Recorder D
  job_done r =
      let r' = record (commit_job r (get_or r.jobs r.job_i no_job)) {
        write_fails = 0;
        job_i = u8 (r.job_i + 1);
      } in
      if ltb r'.job_i r'.job_n then start_job r' else go_wait (record r' { job_n = 0 })

  -- The jobs that `evaluate` queues for these extremes.
  unfoldable pub queue_records : Recorder D → Extremes → Bool → Bool → Recorder D
  queue_records r x hi_new lo_new =
      let r0 = record r { job_n = 0 } in
      let r1 =
        if hi_new
        then queue_extreme r0 slot_peak x.hi x.hi_i (ops.device_rom r.drivers x.hi_i)
        else r0 in
      if lo_new then queue_extreme r1 slot_low x.lo x.lo_i (ops.device_rom r.drivers x.lo_i) else r1

  -- `evaluate`.
  unfoldable pub evaluate : Recorder D → Recorder D
  evaluate r =
      let x = extremes r.ds18_n r.temps r.temps_ok in
      let hi_new = not (slot_at r slot_peak).valid || ltb_ℤ (slot_at r slot_peak).temp x.hi in
      let lo_new = not (slot_at r slot_low).valid || ltb_ℤ x.lo (slot_at r slot_low).temp in
      if not x.have
      then go_wait r
      else if not hi_new && not lo_new
      then go_wait r
      else let queued = queue_records r x hi_new lo_new in
        if queued.persist_off || not queued.have_ds2431
        then go_wait (record (commit_jobs queued.job_n 0 queued) { job_n = 0 })
        else start_job (record queued { job_i = 0 })

  -- The end of the sequential measurement of a sensor.
  unfoldable pub next_sensor : Recorder D → Recorder D
  next_sensor r =
      let r' = record r { seq_cur = u8 (r.seq_cur + 1) } in
      if ltb r'.seq_cur r'.ds18_n then measure_current r' else evaluate r'

  -- ST_MEASURE_WAIT, behind the poll of the driver.
  unfoldable pub wait_scan : Recorder D → Recorder D
  wait_scan r =
      let drain = record r { scan_drain = true; drain_deadline_ms = u32 (r.now + 2000) } in
      if not r.scan_drain
      then if leb r.ds18_n r.reported
        then if leb r.ds18_n (first_bad r) then evaluate r else drain
        else if expired r
        then drain
        else r
      else if leb r.ds18_n r.reported
      then switch_to_sequential r
      else if time_reached r r.drain_deadline_ms
      then go_wait r
      else r

  unfoldable pub wait_sequential : Recorder D → Recorder D
  wait_sequential r =
      if ltb r.seq_cur r.reported
      then next_sensor r
      else if expired r
      then next_sensor (record r { temps_ok = set r.temps_ok r.seq_cur false })
      else r

  -- A poll of a DS2431 operation: on its end the next state, on its failure or a timeout an abort.
  unfoldable pub poll_write : Recorder D → D × Bool → (Recorder D → Recorder D) → Recorder D
  poll_write r (d, is_done) next =
      let r' = record r { drivers = d } in
      if is_done
      then if not (ops.last_command_ok d) then write_abort r' else next r'
      else if expired r'
      then write_abort r'
      else r'

  -- The read-back compare of ST_WRITE_READBACK, where the driver has stored the bytes.
  unfoldable pub compare_block : Recorder D → Recorder D
  compare_block r =
      let r' = record r { verify_buf = ops.read_bytes r.drivers } in
      if not (same_bytes rec_bytes r'.verify_buf (get_or r'.jobs r'.job_i no_job).image)
      then write_abort r'
      else job_done r'

  unfoldable pub step_state : State → Recorder D → Recorder D
  step_state search_ds18 r =
      let (d, is_done) = ops.ds18_search_poll r.drivers in
      let r' = record r { drivers = d } in
      if is_done
      then record r' {
        ds18_n = ops.device_count d;
        drivers = ops.search_start d;
        deadline_ms = u32 (r.now + 2000);
        state = search_all;
      }
      else if expired r'
      then record r' { state = stop }
      else r'
  step_state search_all r =
      let (polled, is_done) = ops.search_poll r.drivers in
      let r' = all_found (record r { drivers = polled.0 }) polled.1 in
      if is_done
      then if r'.have_ds2431
        then record (boot_read_start
            (record r' { boot_step = 0; drivers = ops.ds2431_select r'.drivers r'.ds2431_rom })) {
              state = boot_read;
            }
        else boot_done r'
      else if expired r'
      then record r' { state = stop }
      else r'
  step_state boot_read r =
      let (d, is_done) = ops.read_memory_poll r.drivers in
      let r' = record r { drivers = d } in
      if is_done
      then (let r'' = record r' {
        boot_buf = set r.boot_buf r.boot_step (ops.read_bytes d);
        boot_ok = set r.boot_ok r.boot_step (ops.last_command_ok d);
        boot_step = u8 (r.boot_step + 1);
      } in
          if ltb r''.boot_step 4 then boot_read_start r'' else boot_done r'')
      else if expired r'
      then boot_done (record r' { have_ds2431 = false })
      else r'
  step_state measure_start r = start_round r
  step_state measure_wait r =
      let (d, results) = ops.ds18_poll r.drivers in
      let r' = completed (record r { drivers = d }) results in
      if not r'.seq_mode then wait_scan r' else wait_sequential r'
  step_state write_scratch r = poll_write r (ops.write_scratchpad_poll r.drivers) (λ r'. record r' {
    drivers = ops.read_scratchpad r'.drivers;
    deadline_ms = u32 (r'.now + 1000);
    state = write_verify;
  })
  step_state write_verify r = poll_write r (ops.read_scratchpad_poll r.drivers) (λ r'. record r' {
    drivers = ops.copy_scratchpad r'.drivers;
    deadline_ms = u32 (r'.now + 1000);
    state = write_copy;
  })
  step_state write_copy r = poll_write r (ops.copy_scratchpad_poll r.drivers) (λ r'. record r' {
    drivers = ops.read_memory r'.drivers (get_or r'.jobs r'.job_i no_job).addr rec_bytes;
    deadline_ms = u32 (r'.now + 1000);
    state = write_readback;
  })
  step_state write_readback r = poll_write r (ops.read_memory_poll r.drivers) compare_block
  step_state waiting r =
      if not (r.ds18_n == 0) && time_reached r r.next_ms
      then record r { state = measure_start }
      else r
  step_state stop r = r

  -- One round of the loop of `main`.
  unfoldable pub step : Recorder D → Recorder D
  step r = step_state r.state r
