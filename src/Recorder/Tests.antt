-- ===== src/Recorder/Tests.antt =====
-- A recorder with two sensors, one of them at a new peak, over drivers that accept everything.
use stm32_async_1wire.Prelude.{
  ℕ, zero, suc, ◌<◌, ◌⊎◌, true, false, [], ◌∷◌, get_or, replicate, ◌≡◌, refl, arith,
}
use stm32_async_1wire.Prelude.Int.{pos, negsuc}
use stm32_async_1wire.Recorder.{
  Drivers, Recorder, measure_wait, write_readback, write_copy, no_slot, no_job,
}
use stm32_async_1wire.Recorder.Records.{push_record, extremes}
use stm32_async_1wire.Recorder.Image.{IsStorable, IsDurable, push_record-IsDurable}
use stm32_async_1wire.Recorder.Range.{temp_at}
use stm32_async_1wire.Recorder.Queue.{IsPlanned, round_jobs, queue_records-IsPlanned}
use stm32_async_1wire.Recorder.Step.{step, evaluate, queue_records}
use stm32_async_1wire.Recorder.Writes.{IsVerified, readback, write_step_slots}
use stm32_async_1wire.Recorder.Memory.{IsMemoryRound, evaluate-IsMemoryRound}

abbrev accepting : Drivers (Unit {0})
accepting = record {
  ds18_search_poll = λ d. (d, true);
  device_count = λ d. 2;
  device_rom = λ d i. 0x28 ∷ i ∷ replicate 6 0;
  scan_start = λ d. d;
  start_measure = λ d. d;
  select = λ d rom. d;
  ds18_poll = λ d. (d, []);
  search_start = λ d. d;
  search_poll = λ d. ((d, []), true);
  ds2431_select = λ d rom. d;
  read_memory = λ d addr len. d;
  read_memory_poll = λ d. (d, true);
  read_bytes = λ d. replicate 8 0;
  write_scratchpad = λ d addr image len. (d, true);
  write_scratchpad_poll = λ d. (d, true);
  read_scratchpad = λ d. d;
  read_scratchpad_poll = λ d. (d, true);
  copy_scratchpad = λ d. d;
  copy_scratchpad_poll = λ d. (d, true);
  last_command_ok = λ d. true;
}

abbrev measured : Recorder (Unit {0})
measured = record {
  state = measure_wait;
  ds18_n = 2;
  ds2431_rom = replicate 8 0;
  have_ds2431 = true;
  ds2431_n = 1;
  ds2413_n = 0;
  other_n = 0;
  seq_mode = false;
  seq_cur = 0;
  reported = 2;
  temps = pos 215 ∷ negsuc 52 ∷ [];
  temps_ok = true ∷ true ∷ [];
  cycle_no = 7;
  scan_drain = false;
  slots = record no_slot { valid = true; counter = 255; temp = pos 210 } ∷ no_slot ∷ [];
  boot_buf = [];
  boot_ok = true ∷ true ∷ true ∷ true ∷ [];
  boot_step = 4;
  jobs = replicate 4 no_job;
  job_n = 0;
  job_i = 0;
  verify_buf = replicate 8 0;
  write_fails = 3;
  persist_off = true;
  deadline_ms = 0;
  next_ms = 0;
  drain_deadline_ms = 0;
  now = 100;
  drivers = tt;
}

push_record-IsDurable_example :
    IsDurable measured measured 0
      (pos 215)
      1
      (get_or (push_record measured 0 (pos 215) 1).jobs 0 no_job)
push_record-IsDurable_example =
    push_record-IsDurable measured measured 0 (pos 215) 1 (omega arith) (omega arith) (omega arith)
      (omega arith) refl

queue_records-IsPlanned_example :
    IsPlanned accepting measured
      (queue_records accepting measured (extremes 2 measured.temps measured.temps_ok) true true)
      (round_jobs accepting measured (extremes 2 measured.temps measured.temps_ok) true true)
queue_records-IsPlanned_example =
    queue_records-IsPlanned accepting measured (extremes 2 measured.temps measured.temps_ok) true
      true refl

abbrev reading_back : Recorder (Unit {0})
reading_back = record measured { state = write_readback }

write_step_slots_example :
    ((step accepting reading_back).slots ≡ reading_back.slots)
    ⊎ IsVerified accepting reading_back (step accepting reading_back)
write_step_slots_example = write_step_slots accepting reading_back readback

measured-IsStorable :
    (i : ℕ)
    → i < 2
    → get_or measured.temps_ok i false ≡ true
    → IsStorable (temp_at measured.temps i)
measured-IsStorable zero l h = omega arith
measured-IsStorable (suc zero) l h = omega arith
measured-IsStorable (suc (suc i)) l h = absurd (omega arith)

evaluate-IsMemoryRound_example : IsMemoryRound accepting measured (evaluate accepting measured)
evaluate-IsMemoryRound_example =
    evaluate-IsMemoryRound accepting measured refl refl refl measured-IsStorable

-- The drivers refuse the copy: the third failure in a row.
abbrev refusing : Drivers (Unit {0})
refusing = record accepting { last_command_ok = λ d. false }

abbrev copying : Recorder (Unit {0})
copying = record measured {
  state = write_copy;
  temps = replicate 8 (pos 215);
  temps_ok = replicate 8 true;
  boot_buf = replicate 4 (replicate 8 0);
  job_n = 1;
  write_fails = 2;
  persist_off = false;
}
