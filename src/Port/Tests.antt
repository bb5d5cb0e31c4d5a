-- ===== src/Port/Tests.antt =====
-- Runs of the port and its theorems at concrete inputs.
use stm32_async_1wire.Prelude.{ℕ, ◌+◌, ◌*◌, ◌≤◌, ◌<◌, [], ◌∷◌, ◌≡◌, refl, arith}
use stm32_async_1wire.Port.{
  plan_wait, plan_periods, read_pair, reset, driver_capture, search_pair_pulse,
}
use stm32_async_1wire.Port.Samples.{idle_port}
use stm32_async_1wire.Port.Slots.{Sends, reset-Sends, read_pair-Sends}
use stm32_async_1wire.Port.Wait.{plan_wait_lem}
use stm32_async_1wire.Port.Clock.{
  mhz_from_hz, psc_from_hz, tim_prescaler, ic4f_mask_from_hz, ic4f_args, clock_agrees,
}
use stm32_async_1wire.Port.Sleep.{IsTimed, wait, arm, arm-IsTimed}

-- The DS18B20's conversion wait at 12 bit.
plan_wait_conversion : plan_wait 750000 ≡ (62500, 11)
unfolding plan_wait plan_periods
plan_wait_conversion = refl

plan_wait_zero : plan_wait 0 ≡ (1, 0)
unfolding plan_wait plan_periods
plan_wait_zero = refl

plan_wait_lem_example :
    let (arr, rcr) = plan_wait 93750 in
    (1 ≤ arr)
    × (arr ≤ 65535)
    × (rcr ≤ 255)
    × (93750 ≤ arr * (rcr + 1))
    × (arr * (rcr + 1) < 93750 + (rcr + 1))
    × ((a r : ℕ) → a ≤ 65535 → 93750 ≤ a * (r + 1) → rcr ≤ r)
    × ((a : ℕ) → 93750 ≤ a * (rcr + 1) → arr ≤ a)
plan_wait_lem_example = plan_wait_lem 93750 (omega arith) (omega arith)

reset-Sends_example : Sends (reset idle_port driver_capture) (480 ∷ [])
reset-Sends_example = reset-Sends idle_port driver_capture

read_pair-Sends_example : Sends (read_pair idle_port search_pair_pulse) (5 ∷ 5 ∷ [])
read_pair-Sends_example = read_pair-Sends idle_port search_pair_pulse

-- The DS2431's programming time.
arm-IsTimed_example : IsTimed 11000 (arm (wait 11000) idle_port)
arm-IsTimed_example = arm-IsTimed (wait 11000) idle_port (omega arith, omega arith)

clock_agrees_example :
    (mhz_from_hz 84000000 ≡ 84)
    × (psc_from_hz 84000000 ≡ tim_prescaler 84)
    × (ic4f_mask_from_hz 84000000 ≡ ic4f_args 84)
clock_agrees_example = clock_agrees 84 (omega arith) (omega arith)
