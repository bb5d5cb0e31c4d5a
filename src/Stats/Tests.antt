-- ===== src/Stats/Tests.antt =====
-- Runs of the statistics' theorems at concrete inputs.
use stm32_async_1wire.Prelude.{ℕ, ◌+◌, ◌≤◌, List, [], ◌∷◌, some, true, replicate, ◌≡◌, ◌↔◌, arith}
use stm32_async_1wire.Stats.Context.{
  init, find_sensor, found_or_alloc, alloc_sensor, sensor_find_or_alloc,
}
use stm32_async_1wire.Stats.Dump.{Dump, dump_start, dump_polls, dump_polls_end}

abbrev rom : List ℕ
rom = 0x28 ∷ 1 ∷ 2 ∷ 3 ∷ 4 ∷ 5 ∷ 6 ∷ 7 ∷ []

abbrev idle_dump : Dump
idle_dump = record {
  phase = 0;
  sensor = 0;
  st = (sensor_find_or_alloc init (some rom)).0;
  ring = record {
    log_size = 10;
    head = 0;
    tail = 0;
    buf = replicate 1024 0;
    ready = true;
    line = [];
  };
}

idle_dump_small : idle_dump.st.sensor_count ≤ 8
unfolding sensor_find_or_alloc find_sensor found_or_alloc alloc_sensor init
idle_dump_small = omega arith

dump_polls_end_example :
    (((dump_polls 5 (dump_start idle_dump)).phase ≡ 0) ↔ (idle_dump.st.sensor_count + 4 ≤ 5))
    × ((dump_polls 5 (dump_start idle_dump)).st ≡ idle_dump.st)
dump_polls_end_example = dump_polls_end 5 idle_dump idle_dump_small
