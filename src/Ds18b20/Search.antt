-- ===== src/Ds18b20/Search.antt =====
-- The device and alarm searches: src/ds18b20_search.c. The static `search_user_sink` is the driver's
-- `user_sink`, a function of the ROM alone.
use stm32_async_1wire.Prelude.{
  ℕ, ◌+◌, Bool, not, List, [], Option, none, some, get_or, set, take, ltb, leb, if◌then◌else◌,
}
use stm32_async_1wire.Wire.{search_rom}
use stm32_async_1wire.OneWire
use stm32_async_1wire.OneWire.{search_poll, search_count}
use stm32_async_1wire.Ds18b20.Context.{Driver, World, is_free, max_devices}

-- The call of `search_user_sink`, where there is one.
unfoldable pub user_answer : Option (List ℕ → ℕ) → List ℕ → ℕ
user_answer none rom = 0
user_answer (some sink) rom = sink rom

-- The update of the device table in `search_store_sink`.
unfoldable pub store_rom : List ℕ → Driver → Driver
store_rom rom d =
    if ltb d.dev_count max_devices
    then record d {
      dev_roms = set d.dev_roms d.dev_count (take 8 rom);
      dev_count = d.dev_count + 1;
    }
    else d

-- `search_store_sink`.
unfoldable pub search_store_sink : List ℕ → Driver → Driver × ℕ
search_store_sink rom d = (store_rom rom d, user_answer d.user_sink rom)

-- `search_alarm_sink`.
unfoldable pub search_alarm_sink : List ℕ → Driver → Driver × ℕ
search_alarm_sink rom d = (d, user_answer d.user_sink rom)

abbrev pub family_code : ℕ
family_code = 0x28

abbrev pub alarm_search : ℕ
alarm_search = 0xec

-- `ds18b20_search_start`.
unfoldable pub search_start : World → Option (List ℕ → ℕ) → ℕ → World
search_start w sink limit =
    if not (is_free w)
    then w
    else OneWire.search_start
        (record w { owner = record (w.owner) { dev_count = 0; user_sink = sink } })
        (some search_store_sink) limit search_rom family_code

-- `ds18b20_alarm_search_start`.
unfoldable pub alarm_search_start : World → Option (List ℕ → ℕ) → ℕ → World
alarm_search_start w sink limit =
    if not (is_free w)
    then w
    else OneWire.search_start (record w { owner = record (w.owner) { user_sink = sink } })
        (some search_alarm_sink) limit alarm_search family_code

-- `ds18b20_search_poll` and `ds18b20_alarm_search_poll`.
unfoldable pub device_search_poll : World → World × Bool
device_search_poll w = search_poll w

-- `ds18b20_search_count` and `ds18b20_alarm_search_count`.
unfoldable pub device_search_count : World → ℕ
device_search_count w = search_count w

-- `ds18b20_device_count`.
unfoldable pub device_count : World → ℕ
device_count w = w.owner.dev_count

-- `ds18b20_device_rom`; NULL is `none`.
unfoldable pub device_rom : World → ℕ → Option (List ℕ)
device_rom w index =
    if leb w.owner.dev_count index then none else some (get_or w.owner.dev_roms index [])
