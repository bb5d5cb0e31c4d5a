-- ===== src/Ds18b20/Calls.antt =====
-- The calls that the application makes on the driver, as data, and what may happen between two of
-- them: the timer and its DMA streams set registers and fill the capture buffers.
use stm32_async_1wire.Prelude.{ℕ, List, Option}
use stm32_async_1wire.Port.{Port}
use stm32_async_1wire.Ds18b20.Context.{World, select}
use stm32_async_1wire.Ds18b20.Resolution.{set_resolution, set_resolution_poll}
use stm32_async_1wire.Ds18b20.Txn.{
  start_read_rom, read_rom_poll, set_alarm_thresholds, txn_poll, start_read_scratchpad,
  read_scratchpad_poll, start_copy_scratchpad, start_recall_eeprom, set_parasite, detect_parasite,
  detect_parasite_poll,
}
use stm32_async_1wire.Ds18b20.Search.{search_start, alarm_search_start, device_search_poll}
use stm32_async_1wire.Ds18b20.Measure.{start_measure, scan_start, poll}

-- The calls behind the ownership guards.
pub data Start : Type 0 where
  measure scan : Start
  find find_alarms : Option (List ℕ → ℕ) → ℕ → Start
  choose : Option (List ℕ) → Start
  change_resolution : ℕ → Start
  get_rom get_scratchpad : Option (List ℕ) → Start
  set_thresholds : ℕ → ℕ → Start
  copy_to_eeprom recall detect : Start

-- The calls that advance an activity.
pub data Poll : Type 0 where
  at_measure at_scratchpad at_rom at_command at_parasite at_resolution at_devices : Poll

unfoldable pub begin : Start → World → World
begin measure w = start_measure w
begin scan w = scan_start w
begin (find sink limit) w = search_start w sink limit
begin (find_alarms sink limit) w = alarm_search_start w sink limit
begin (choose rom) w = select w rom
begin (change_resolution bits) w = set_resolution w bits
begin (get_rom buf) w = start_read_rom w buf
begin (get_scratchpad buf) w = start_read_scratchpad w buf
begin (set_thresholds th tl) w = set_alarm_thresholds w th tl
begin copy_to_eeprom w = start_copy_scratchpad w
begin recall w = start_recall_eeprom w
begin detect w = detect_parasite w

unfoldable pub advance : Poll → World → World
advance at_measure w = poll w
advance at_scratchpad w = (read_scratchpad_poll w).0
advance at_rom w = (read_rom_poll w).0
advance at_command w = (txn_poll w).0
advance at_parasite w = (detect_parasite_poll w).0
advance at_resolution w = (set_resolution_poll w).0
advance at_devices w = (device_search_poll w).0

-- The hardware between two calls: any registers, any contents of the capture buffers.
unfoldable pub hardware : Port → List ℕ → List ℕ → List ℕ → World → World
hardware port pair triple storage w = record w {
  port = port;
  pair_pulse = pair;
  pulse3 = triple;
  owner = record (w.owner) { ctx = record (w.owner.ctx) { storage = storage } };
}

-- A run of the program from a world.
pub data Run (w : World) : World → Type 0 where
  stop : Run w w
  started : (s : Start) {v : World} → Run w v → Run w (begin s v)
  polled : (p : Poll) {v : World} → Run w v → Run w (advance p v)
  powered : (parasite : ℕ) {v : World} → Run w v → Run w (set_parasite v parasite)
  elapsed :
      (port : Port) (pair triple storage : List ℕ) {v : World}
      → Run w v
      → Run w (hardware port pair triple storage v)
