-- ===== src/Port/Samples.antt =====
-- Registers that the runs of the other modules start from.
use stm32_async_1wire.Prelude.{true, false, []}
use stm32_async_1wire.Port.{Port, search_pair_pulse}

-- A timer that has just completed a reset, with both edges captured.
abbrev pub idle_port : Port
idle_port = record {
  clocks = true;
  psc = 71;
  main_output = true;
  push_pull = false;
  arr = 960;
  rcr = 0;
  ccr2 = 65;
  ccr3 = 0;
  shadow = 0;
  preload = true;
  capture_mode = true;
  pulse_out = true;
  capture_in = true;
  feed_request = false;
  capture_request = true;
  running = false;
  uif = true;
  capture = record { enabled = false; target = search_pair_pulse; count = 0; wide = true };
  feed = record { enabled = false; source = []; count = 0 };
}
