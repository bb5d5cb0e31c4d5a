-- ===== src/Ds18b20/Tests.antt =====
-- Runs of the driver and its theorems at concrete inputs.
use stm32_async_1wire.Prelude.{◌+◌, ◌*◌, true, none, ◌≡◌, refl, arith}
use stm32_async_1wire.Prelude.Int.{pos, negsuc}
use stm32_async_1wire.Ds18b20.Samples.{cold}
use stm32_async_1wire.Ds18b20.Context.{init, int16, decode_temperature}
use stm32_async_1wire.Ds18b20.Txn.{txn_build_pulses}
use stm32_async_1wire.Ds18b20.Calls.{
  begin, advance, find, change_resolution, at_resolution, stop, started, polled,
}
use stm32_async_1wire.Ds18b20.Invariant.{IsValid, init-IsValid}
use stm32_async_1wire.Ds18b20.Safety.{run-IsValid}
use stm32_async_1wire.Ds18b20.Temperature.{IsNearest, decode_temperature-IsNearest}
use stm32_async_1wire.Ds18b20.Command.{IsSized, IsBuiltCommand, txn_build_pulses-IsBuiltCommand}
use stm32_async_1wire.Ds18b20.Progress.{settle_txn, settle_txn-finished}

-- 25.0625 and -10.125 degrees, as the datasheet of the sensor codes them.
decode_temperature-warm : decode_temperature 0x91 0x01 ≡ pos 251
unfolding decode_temperature
decode_temperature-warm = refl

decode_temperature-cold : decode_temperature 0x5e 0xff ≡ negsuc 100
unfolding decode_temperature
decode_temperature-cold = refl

run-IsValid_example :
    IsValid
      (advance at_resolution (begin (change_resolution 9) (begin (find none 4) (init 72 cold))))
run-IsValid_example =
    run-IsValid (init-IsValid 72 cold refl refl refl)
      (polled at_resolution (started (change_resolution 9) (started (find none 4) stop)))

decode_temperature-IsNearest_example :
    IsNearest (decode_temperature 0x5e 0xff) (int16 (0xff * 256 + 0x5e))
decode_temperature-IsNearest_example =
    decode_temperature-IsNearest 0x5e 0xff (omega arith) (omega arith)

cold-IsSized : IsSized cold.owner
cold-IsSized = record {
  table_size = refl;
  rom_size = refl;
  payload_size = refl;
  payload_le = omega arith;
  rom_bytes = ground arith;
  payload_bytes = ground arith;
  command_byte = omega arith;
}

txn_build_pulses-IsBuiltCommand_example : IsBuiltCommand cold.owner (txn_build_pulses cold).owner
txn_build_pulses-IsBuiltCommand_example = txn_build_pulses-IsBuiltCommand cold cold-IsSized

settle_txn-finished_example : (settle_txn 4 cold).owner.txn.finished ≡ true
settle_txn-finished_example = settle_txn-finished cold
