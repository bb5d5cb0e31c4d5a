-- ===== src/Ds18b20/Round/Reports.antt =====
-- What a round of the scan mode reports: `ds18b20_scan_start`, `ds18b20_start_measure` and `ds18b20_poll`
-- of src/ds18b20_measure.c.
use stm32_async_1wire.Prelude.{ℕ, List, ◌≡◌}
use stm32_async_1wire.Port
use stm32_async_1wire.Ds18b20.Context.{World, Callback, idle}
use stm32_async_1wire.Ds18b20.Round.{Event, polls, sent}

-- What polling events until the driver is idle has come to.
pub record IsRound (es : List Event) (w : World) (log : List Callback) (roms : List (List ℕ))
    : Type 0 where
  pub log_is : (polls es w).owner.log ≡ log
  pub sent_are : sent es w ≡ roms
  pub ends : (polls es w).owner.ctx.current_state ≡ idle
