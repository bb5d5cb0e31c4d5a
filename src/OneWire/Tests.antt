-- ===== src/OneWire/Tests.antt =====
-- A search context at work: the empty bus, and a rejected call.
use stm32_async_1wire.Prelude.{◌⊎◌, false, [], ◌∷◌, none, replicate, ◌≡◌, refl, arith}
use stm32_async_1wire.Port
use stm32_async_1wire.Port.Samples.{idle_port}
use stm32_async_1wire.Wire.{present}
use stm32_async_1wire.OneWire.{
  Bus, reset, cmd, done, search_poll, search_poll_phase, search_switch, op_done, has_presence,
  write_slots,
}
use stm32_async_1wire.OneWire.Invariant.{IsValid, search_poll-IsValid}
use stm32_async_1wire.OneWire.Reports.{IsSilent, IsReport, search_poll_reports}

-- A search that waits for its first reset.
abbrev started : Bus (Unit {0})
started = record {
  port = idle_port;
  search = record {
    phase = reset;
    command = 0xf0;
    family = 0x28;
    rom = replicate 8 0;
    id_bit_number = 0;
    last_discrepancy = 0;
    last_zero = 0;
    found = 0;
    max_found = 4;
    finished = false;
    prev_leaf_valid = false;
    prev_leaf = replicate 8 0;
    sink = none;
  };
  pair_pulse = 490 ∷ 620 ∷ [];
  pulse3 = replicate 3 0;
  owner = tt;
}

abbrev unanswered : Bus (Unit {0})
unanswered = record started { pair_pulse = 490 ∷ 0 ∷ [] }

abbrev pending : Bus (Unit {0})
pending = record started { port = record idle_port { uif = false } }

presence_sends_command : (search_poll started).0.search.phase ≡ cmd
unfolding search_poll search_poll_phase search_switch op_done Port.bus_done has_presence present
    Port.reset_captured write_slots
presence_sends_command = refl

silence_ends : (search_poll unanswered).0.search.phase ≡ done
unfolding search_poll search_poll_phase search_switch op_done Port.bus_done has_presence present
    Port.reset_captured write_slots
silence_ends = refl

started-IsValid : IsValid started.search
started-IsValid = ground arith

search_poll-IsValid_example : IsValid (search_poll started).0.search
search_poll-IsValid_example = search_poll-IsValid started started-IsValid

search_poll_reports_example :
    IsSilent started (search_poll started).0 ⊎ IsReport started (search_poll started).0
search_poll_reports_example = search_poll_reports started
