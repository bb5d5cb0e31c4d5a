-- ===== src/Eeprom/Tests.antt =====
-- The EEPROM demonstration at its start, between two steps of a device, and behind its cycle.
use stm32_async_1wire.Prelude.{[], ◌∷◌, true, false, some, replicate, ◌≡◌, refl, arith}
use stm32_async_1wire.Console.{Ring}
use stm32_async_1wire.OneWire.{call_sink, search_active}
use stm32_async_1wire.Ds2431.Context.{World}
use stm32_async_1wire.Ds2431.Samples.{parked}
use stm32_async_1wire.Ds2431.Txn.{can_start}
use stm32_async_1wire.Eeprom.{
  Demo, read_baseline, read_scratchpad, done, round, boot, start_step, finish_step, next_row, sink,
  react, rested, start_search,
}
use stm32_async_1wire.Eeprom
use stm32_async_1wire.Eeprom.Order.{IsInService}
use stm32_async_1wire.Eeprom.Invariant.{here, passed, boot-IsInService, Reach-IsInService}
use stm32_async_1wire.Eeprom.Accepted.{IsBegun, round-IsBegun}
use stm32_async_1wire.Eeprom.Told.{told_kept}
use stm32_async_1wire.Eeprom.Row.{IsRowWritten, baseline-IsRowWritten}

abbrev ring : Ring
ring = record { log_size = 7; head = 0; tail = 0; buf = replicate 128 0; ready = true; line = [] }

Reach-IsInService_example : IsInService (round 1 (round 0 (boot 72 parked ring)))
Reach-IsInService_example =
    Reach-IsInService (boot-IsInService 72 parked ring refl) (passed 1 (passed 0 here))

-- One device is found and served, its row is in the scratchpad, and Read Scratchpad is next.
abbrev halfway : Demo
halfway = record {
  world = record parked { search = record (parked.search) { sink = some sink } };
  ring = ring;
  step = read_scratchpad;
  search_running = false;
  cmd_running = false;
  demo_done = false;
  next_search_ms = 0;
  found_roms = (0x2d ∷ 1 ∷ 2 ∷ 3 ∷ 4 ∷ 5 ∷ 6 ∷ 7 ∷ []) ∷ [];
  dev_idx = 0;
  eeprom_data = 255 ∷ replicate 127 9;
  frame = replicate 11 0;
  write_data = 0 ∷ replicate 7 10;
}

halfway-IsInService : IsInService halfway
unfolding call_sink
halfway-IsInService = record {
  searches = λ h. cc;
  first = λ h. cc;
  rests = λ h e. cc;
  serves = λ h e. record {
    step_is = refl;
    serving = record {
      listed = omega arith;
      selected = record { addressed = refl; rom_is = refl };
      latched = λ q. refl;
    };
    turn = record {
      no_search = λ q. refl;
      no_command = λ q. refl;
      settled = λ q. refl;
      sink_keeps = λ rom c. refl;
    };
  };
}

round-IsBegun_example : IsBegun 0xaa (0x2d ∷ 1 ∷ 2 ∷ 3 ∷ 4 ∷ 5 ∷ 6 ∷ 7 ∷ []) (round 9 halfway).world
round-IsBegun_example = round-IsBegun 9 halfway halfway halfway-IsInService here refl refl refl

-- Every device is served, and the cycle is about to be told over.
abbrev resting : Demo
resting = record halfway { step = done }

resting-IsInService : IsInService resting
unfolding call_sink
resting-IsInService = record {
  searches = λ h. cc;
  first = λ h. cc;
  rests = λ h e. record {
    no_search = λ q. refl;
    no_command = λ q. refl;
    settled = λ q. refl;
    sink_keeps = λ rom c. refl;
  };
  serves = λ h e. cc;
}

resting_told : (round 5 resting).demo_done ≡ true
unfolding round react rested start_search
resting_told = refl

told_kept_example :
    let d = round 5 resting in
    let e = round 2000 (round 1000 d) in
    e.world.owner ≡ record (d.world.owner) { u = e.world.owner.u }
told_kept_example =
    told_kept resting-IsInService refl (passed 5 here) resting_told (passed 2000 (passed 1000 here))

-- The baseline read of `halfway`, at its end.
abbrev read_row : Demo
read_row = record halfway {
  world = record parked { owner = record (parked.owner) { ok = true } };
  step = read_baseline;
}

read_row-can_start : can_start read_row.world ≡ true
unfolding can_start search_active
read_row-can_start = refl

baseline-IsRowWritten_example :
    let d = finish_step read_baseline read_row in
    IsRowWritten read_row.eeprom_data d.write_data (start_step Eeprom.write_scratchpad d).world
baseline-IsRowWritten_example =
    baseline-IsRowWritten read_row (unfold stm32_async_1wire.Ds2431.Context.last_command_ok in refl)
      read_row-can_start (omega arith)

next_row-wraps : next_row (255 ∷ 0 ∷ []) ≡ 0 ∷ 1 ∷ []
unfolding next_row
next_row-wraps = refl
