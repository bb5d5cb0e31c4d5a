-- ===== src/Commands/Tests.antt =====
-- The demonstration at its start, and between two commands.
use stm32_async_1wire.Prelude.{[], ◌++◌, true, false, replicate, ◌≡◌, refl, arith}
use stm32_async_1wire.Prelude.Int.{negsuc}
use stm32_async_1wire.OneWire.{call_sink}
use stm32_async_1wire.Console.{Ring, codes, write_str, int_text, put_digits}
use stm32_async_1wire.Ds18b20.Samples.{cold, fleet}
use stm32_async_1wire.Commands.{
  Demo, copy, boot, round, print_temperature, whole_degrees, tenths, crlf,
}
use stm32_async_1wire.Commands.Invariant.{IsOrdered, here, passed, boot-IsOrdered, Reach-IsOrdered}
use stm32_async_1wire.Commands.Accepted.{IsTaken, round-IsTaken}
use stm32_async_1wire.Commands.Report.{temperature_text, decimal, print_temperature-reads}

abbrev ring : Ring
ring = record { log_size = 7; head = 0; tail = 0; buf = replicate 128 0; ready = true; line = [] }

Reach-IsOrdered_example : IsOrdered (round 1 (round 0 (boot 72 cold ring)))
Reach-IsOrdered_example =
    Reach-IsOrdered (boot-IsOrdered 72 cold ring refl refl) (passed 1 (passed 0 here))

-- The device is selected, and Copy Scratchpad is next.
abbrev halfway : Demo
halfway = record {
  world = fleet;
  ring = ring;
  step = copy;
  search_running = false;
  cmd_running = false;
  pause_end_ms = 0;
  scratchpad = replicate 9 0;
  rom = replicate 8 0;
}

halfway-IsOrdered : IsOrdered halfway
unfolding call_sink
halfway-IsOrdered = record {
  no_res = refl;
  no_scan = refl;
  no_search = λ h. refl;
  no_txn = λ h. refl;
  no_measure = λ h. refl;
  sink_keeps =
      λ rom d. record { same_ctx = refl; same_txn = refl; same_res = refl; devices_le = λ h. h };
}

round-IsTaken_example : IsTaken copy (round 9 halfway).world
round-IsTaken_example = round-IsTaken 9 halfway halfway halfway-IsOrdered here refl refl refl

-- -0.5 degrees.
temperature_text-cold : temperature_text (negsuc 4) ≡ codes "-0.5"
unfolding temperature_text whole_degrees tenths int_text put_digits
temperature_text-cold = refl

print_temperature-reads_example :
    (print_temperature ring (negsuc 4)
      ≡ (write_str ring (temperature_text (negsuc 4) ++ (codes " C" ++ crlf))).0)
    × (decimal (temperature_text (negsuc 4)) ≡ negsuc 4)
print_temperature-reads_example =
    print_temperature-reads ring (negsuc 4) (omega arith) (omega arith)
