-- ===== src/Stats/Context.antt =====
-- The bus statistics: src/ow_stats.c and inc/ow_stats.h, which OW_STATS_ENABLE compiles in. A sensor table
-- holds eight rows, of which `sensor_count` are in use.
use stm32_async_1wire.Prelude.{
  ℕ, zero, suc, ◌+◌, ◌-◌, List, [], ◌∷◌, Option, none, some, get_or, set, take, replicate, ltb, leb,
  if◌then◌else◌, map, ◌++◌,
}
use stm32_async_1wire.Wire.{u32}
use stm32_async_1wire.OneWire.{same_bytes}

-- `ow_stats_sensor_t`.
pub record Sensor : Type 0 where
  pub rom : List ℕ
  pub min_pulse : ℕ
  pub max_pulse : ℕ
  pub count : ℕ
  pub crc_err : ℕ
  pub no_presence : ℕ
  pub generic_err : ℕ

-- `ow_stats_t`.
pub record Stats : Type 0 where
  pub sensors : List Sensor
  pub sensor_count : ℕ
  pub histogram : List ℕ
  pub total_cycles : ℕ
  pub total_errors : ℕ

-- The error codes that the counters tell apart: CRC_FAIL, NO_SENSOR and every other.
pub data Error : Type 0 where
  crc_fail no_sensor other : Error

abbrev pub max_sensors : ℕ
max_sensors = 8

abbrev pub hist_buckets : ℕ
hist_buckets = 16

abbrev pub no_row : Sensor
no_row = record {
  rom = replicate 8 0;
  min_pulse = 0;
  max_pulse = 0;
  count = 0;
  crc_err = 0;
  no_presence = 0;
  generic_err = 0;
}

-- The `memset` of `ow_stats_init`.
unfoldable pub init : Stats
init = record {
  sensors = replicate max_sensors no_row;
  sensor_count = 0;
  histogram = replicate hist_buckets 0;
  total_cycles = 0;
  total_errors = 0;
}

-- `hist_bucket`.
unfoldable pub hist_bucket : ℕ → ℕ
hist_bucket pulse =
    if leb pulse 2
    then 0
    else if leb pulse 4
    then 1
    else if leb pulse 6
    then 2
    else if leb pulse 9
    then 3
    else if leb pulse 12
    then 4
    else if leb pulse 14
    then 5
    else if leb pulse 19
    then 6
    else if leb pulse 24
    then 7
    else if leb pulse 29
    then 8
    else if leb pulse 39
    then 9
    else if leb pulse 49
    then 10
    else if leb pulse 59
    then 11
    else 12

-- The search loop of `sensor_find_or_alloc` from row `i`, with `left` rows to go.
unfoldable pub find_sensor : ℕ → ℕ → List Sensor → List ℕ → Option ℕ
find_sensor zero i sensors rom = none
find_sensor (suc left) i sensors rom =
    let rest = find_sensor left (i + 1) sensors rom in
    if same_bytes 8 (get_or sensors i no_row).rom rom then some i else rest

-- The row that an unknown ROM is given, where there is one left.
unfoldable pub alloc_sensor : Stats → List ℕ → Stats × ℕ
alloc_sensor st rom =
    if ltb st.sensor_count max_sensors
    then (
      record st {
        sensors =
            set st.sensors st.sensor_count (record (get_or st.sensors st.sensor_count no_row) {
              rom = take 8 rom;
              min_pulse = 0xff;
              max_pulse = 0;
            });
        sensor_count = st.sensor_count + 1;
      },
      st.sensor_count,
    )
    else (st, max_sensors)

unfoldable pub found_or_alloc : Option ℕ → Stats → List ℕ → Stats × ℕ
found_or_alloc (some i) st rom = (st, i)
found_or_alloc none st rom = alloc_sensor st rom

-- `sensor_find_or_alloc`; NULL is `none`, and 8 stands for no row.
unfoldable pub sensor_find_or_alloc : Stats → Option (List ℕ) → Stats × ℕ
sensor_find_or_alloc st none = (st, max_sensors)
sensor_find_or_alloc st (some rom) =
    found_or_alloc (find_sensor st.sensor_count 0 st.sensors rom) st rom

-- The update of a sensor's extremes for one pulse.
unfoldable pub widen : Sensor → ℕ → Sensor
widen s p =
    let s' = if ltb p s.min_pulse then record s { min_pulse = p } else s in
    if ltb s'.max_pulse p then record s' { max_pulse = p } else s'

-- The loop of `ow_stats_capture_pulse`, for row `si`.
unfoldable pub count_pulses : ℕ → List ℕ → Stats → Stats
count_pulses si [] st = st
count_pulses si (p ∷ pulses) st =
    let bucket = hist_bucket p in
    count_pulses si pulses (record st {
      histogram = set st.histogram bucket (u32 (get_or st.histogram bucket 0 + 1));
      sensors =
          if ltb si max_sensors
          then set st.sensors si (widen (get_or st.sensors si no_row) p)
          else st.sensors;
    })

-- `ow_stats_capture_pulse`, over the `n` pulses of a buffer.
unfoldable pub capture_pulse : Stats → List ℕ → ℕ → Option (List ℕ) → Stats
capture_pulse st pulse n rom =
    let (st1, si) = sensor_find_or_alloc st rom in
    let st2 = count_pulses si (take n pulse) st1 in
    if ltb si max_sensors
    then (let s = get_or st2.sensors si no_row in
        record st2 { sensors = set st2.sensors si (record s { count = u32 (s.count + 1) }) })
    else st2

-- The `switch` of `ow_stats_count_error`.
unfoldable pub count_kind : Error → Sensor → Sensor
count_kind crc_fail s = record s { crc_err = u32 (s.crc_err + 1) }
count_kind no_sensor s = record s { no_presence = u32 (s.no_presence + 1) }
count_kind other s = record s { generic_err = u32 (s.generic_err + 1) }

-- `ow_stats_count_error`.
unfoldable pub count_error : Stats → Error → Option (List ℕ) → Stats
count_error st error rom =
    let (st1, si) = sensor_find_or_alloc st rom in
    record st1 {
      sensors =
          if ltb si max_sensors
          then set st1.sensors si (count_kind error (get_or st1.sensors si no_row))
          else st1.sensors;
      total_errors = u32 (st1.total_errors + 1);
    }

-- A row that `ow_stats_reset` keeps: its ROM, and an open minimum.
abbrev pub kept_row : Sensor → Sensor
kept_row s = record no_row { rom = s.rom; min_pulse = 0xff }

-- `ow_stats_reset`.
unfoldable pub reset : Stats → Stats
unfolding init
reset st =
    let n = st.sensor_count in
    record init {
      sensors = map kept_row (take n st.sensors) ++ replicate (max_sensors - n) no_row;
      sensor_count = n;
    }

-- `ow_stats_tick`, with its answer.
unfoldable pub tick : Stats → Stats × ℕ
tick st = let n = u32 (st.total_cycles + 1) in (record st { total_cycles = n }, n)
