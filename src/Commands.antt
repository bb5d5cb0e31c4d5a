-- ===== src/Commands.antt =====
-- The command demonstration, examples/5_commands/main.c, over the DS18B20 driver and the console. It
-- searches the bus, runs twelve commands on the first sensor, one after the other, and then measures.
-- `app_millis()` has one value, `now`, in a round of the loop. A buffer given to the driver is taken
-- over when the poll that fills it returns, and the callbacks that a poll makes are handled behind it.
-- The search sinks answer 0; the ROMs that they print are left out.
pub mod Kept
pub mod Turns
pub mod Steps
pub mod Invariant
pub mod Accepted
pub mod Report
mod Tests
use stm32_async_1wire.Prelude.{
  ℕ, zero, suc, ◌+◌, ◌-◌, ◌*◌, ◌/◌, ◌%◌, ◌^◌, Bool, true, false, not, ◌&&◌, List, [], ◌∷◌, ◌++◌,
  Option, none, some, get_or, take, length, replicate, ltb, ◌==◌, if◌then◌else◌,
}
use stm32_async_1wire.Prelude.Int.{ℤ, pos, negsuc, sub_ℕ}
use stm32_async_1wire.Wire.{crc8, u32}
use stm32_async_1wire.Console.{Ring, codes, write_str, write_int, write_hex, enqueue_byte, poll_tx}
use stm32_async_1wire.Ds18b20.Context.{
  World, Callback, busy, complete, init, select, temp_error_generic, temp_error_no_sensor,
  temp_error_crc_fail,
}
use stm32_async_1wire.Ds18b20.Txn.{
  start_read_rom, read_rom_poll, set_alarm_thresholds, txn_poll, start_read_scratchpad,
  read_scratchpad_poll, start_copy_scratchpad, start_recall_eeprom, detect_parasite,
  detect_parasite_poll, last_command_ok,
}
use stm32_async_1wire.Ds18b20.Search.{
  search_start, alarm_search_start, device_search_poll, device_search_count, device_count,
  device_rom,
}
use stm32_async_1wire.Ds18b20.Measure.{start_measure, poll}

-- `step_t`, without the prefix.
pub data Step : Type 0 where
  power baseline set_alarm after_set copy set_again after_second recall after_recall get_rom : Step
  set_force alarm_search measure : Step

-- The statics of the file, over the driver and the console.
pub record Demo : Type 0 where
  pub world : World
  pub ring : Ring
  pub step : Step
  pub search_running : Bool
  pub cmd_running : Bool
  pub pause_end_ms : ℕ
  pub scratchpad : List ℕ
  pub rom : List ℕ

abbrev pub period_ms : ℕ
period_ms = 5000

abbrev pub max_found : ℕ
max_found = 8

-- `uart_write_str`, `uart_write_int`, `uart_write_hex`, and a line end.
abbrev pub say : Demo → List ℕ → Demo
say d s = record d { ring = (write_str d.ring s).0 }

abbrev pub say_int : Demo → ℤ → Demo
say_int d n = record d { ring = (write_int d.ring n).0 }

abbrev pub say_hex : Demo → ℕ → Demo
say_hex d b = record d { ring = (write_hex d.ring b).0 }

abbrev pub crlf : List ℕ
crlf = 13 ∷ 10 ∷ []

-- The loop of `print_rom` and of `print_scratchpad`: bytes in hexadecimal, with spaces between them.
unfoldable pub print_bytes : Ring → List ℕ → Ring
print_bytes r [] = r
print_bytes r (b ∷ []) = (write_hex r b).0
print_bytes r (b ∷ c ∷ bytes) = print_bytes (enqueue_byte (write_hex r b).0 32).0 (c ∷ bytes)

-- `print_scratchpad`.
unfoldable pub print_scratchpad : Demo → List ℕ → Demo
print_scratchpad d label =
    let s = d.scratchpad in
    let d1 = say d label in
    let d2 = record d1 { ring = print_bytes d1.ring (take 9 s) } in
    let d3 = say d2 (if get_or s 8 0 == crc8 s 8 then codes "  CRC ok" else codes "  CRC fail") in
    let d4 = say_hex (say d3 (codes "  TH=0x")) (get_or s 2 0) in
    let d5 = say_hex (say d4 (codes " TL=0x")) (get_or s 3 0) in
    say (say_int (say d5 (codes "  res=")) (pos d5.world.owner.ctx.resolution))
      (codes "bit" ++ crlf)

abbrev put_world : Demo → World → Demo
put_world d w = record d { world = w }

-- The banner of a threshold write.
unfoldable pub print_thresholds : Demo → ℕ → ℕ → List ℕ → Demo
print_thresholds d th tl rest =
    let d' = say_hex (say d (codes "Write Scratchpad (0x4E): TH=0x")) th in
    say (say_hex (say d' (codes " TL=0x")) tl) (rest ++ crlf)

-- `start_step`.
unfoldable pub start_step : Step → Demo → Demo
start_step power d =
    put_world (say d (codes "Read Power Supply (0xB4):" ++ crlf)) (detect_parasite d.world)
start_step baseline d =
    put_world (say d (codes "Read Scratchpad (0xBE) - baseline:" ++ crlf))
      (start_read_scratchpad d.world (some d.scratchpad))
start_step set_alarm d =
    put_world (print_thresholds d 0x19 0x0f []) (set_alarm_thresholds d.world 0x19 0x0f)
start_step after_set d =
    put_world (say d (codes "Scratchpad after threshold write:" ++ crlf))
      (start_read_scratchpad d.world (some d.scratchpad))
start_step copy d =
    put_world (say d (codes "Copy Scratchpad (0x48) -> EEPROM (10ms hold-off):" ++ crlf))
      (start_copy_scratchpad d.world)
start_step set_again d =
    put_world (print_thresholds d 0x05 0x02 (codes " (volatile only)"))
      (set_alarm_thresholds d.world 0x05 0x02)
start_step after_second d =
    put_world (say d (codes "Scratchpad after second write:" ++ crlf))
      (start_read_scratchpad d.world (some d.scratchpad))
start_step recall d =
    put_world (say d (codes "Recall EEPROM (0xB8) -> scratchpad (10ms hold-off):" ++ crlf))
      (start_recall_eeprom d.world)
start_step after_recall d =
    put_world (say d (codes "Scratchpad after Recall (EEPROM copy restored):" ++ crlf))
      (start_read_scratchpad d.world (some d.scratchpad))
start_step get_rom d =
    put_world (say d (codes "Read ROM (0x33) - single-device command:" ++ crlf))
      (start_read_rom d.world (some d.rom))
start_step set_force d =
    put_world (say d (codes "Force alarm state (TH=-55C, TL=+125C):" ++ crlf))
      (set_alarm_thresholds d.world 0xc9 0x7d)
start_step alarm_search d =
    put_world (say d (codes "Alarm Search (0xEC) - only alarmed devices respond:" ++ crlf))
      (alarm_search_start d.world (some (λ rom. 0)) max_found)
start_step measure d = d

-- What a buffer holds behind a poll: what the driver has written, or what it held.
abbrev filled : Option (List ℕ) → List ℕ → List ℕ
filled none old = old
filled (some out) old = out

-- `poll_step` of a step that reads the scratchpad.
unfoldable pub poll_scratchpad : Demo → Demo × Bool
poll_scratchpad d =
    let (w, is_done) = read_scratchpad_poll d.world in
    (record d { world = w; scratchpad = filled w.owner.txn.out d.scratchpad }, is_done)

-- `poll_step` of a step whose poll is `txn_poll`.
unfoldable pub poll_command : Demo → Demo × Bool
poll_command d = let (w, is_done) = txn_poll d.world in (put_world d w, is_done)

-- `poll_step`.
unfoldable pub poll_step : Step → Demo → Demo × Bool
poll_step power d = let (w, is_done) = detect_parasite_poll d.world in (put_world d w, is_done)
poll_step baseline d = poll_scratchpad d
poll_step set_alarm d = poll_command d
poll_step after_set d = poll_scratchpad d
poll_step copy d = poll_command d
poll_step set_again d = poll_command d
poll_step after_second d = poll_scratchpad d
poll_step recall d = poll_command d
poll_step after_recall d = poll_scratchpad d
poll_step get_rom d =
    let (w, is_done) = read_rom_poll d.world in
    (record d { world = w; rom = filled w.owner.txn.out d.rom }, is_done)
poll_step set_force d = poll_command d
poll_step alarm_search d = let (w, is_done) = device_search_poll d.world in (put_world d w, is_done)
poll_step measure d = (d, true)

-- The result lines of `finish_step`.
unfoldable pub print_result : Step → Demo → Demo
print_result power d = say d (
    codes "  power supply: "
    ++ (if d.world.owner.ctx.parasite then codes "parasite" else codes "external (VDD)")
    ++ crlf)
print_result copy d = say d (codes "  copied to EEPROM" ++ crlf)
print_result recall d = say d (codes "  EEPROM copy loaded back" ++ crlf)
print_result get_rom d =
    let d1 = say d (codes "  ROM: ") in
    say (record d1 { ring = print_bytes d1.ring (take 8 d.rom) })
      ((if get_or d.rom 7 0 == crc8 d.rom 7
          then codes "  CRC ok"
          else codes "  CRC fail (valid only with one device on the bus)")
        ++ crlf)
print_result alarm_search d =
    let d1 = say d (codes "  alarmed device(s): ") in
    say (say_int d1 (pos (device_search_count d.world))) crlf
print_result baseline d = print_scratchpad d (codes "  ")
print_result after_set d = print_scratchpad d (codes "  ")
print_result after_second d = print_scratchpad d (codes "  ")
print_result after_recall d = print_scratchpad d (codes "  ")
print_result _ d = d

-- `finish_step`.
unfoldable pub finish_step : Step → Demo → Demo
finish_step s d =
    if not (last_command_ok d.world)
    then say d (codes "  no device present; command aborted" ++ crlf)
    else print_result s d

-- `temp / 10` and `temp % 10` in C, which truncate towards 0, and the sign flipped of a negative rest.
unfoldable pub whole_degrees : ℤ → ℤ
whole_degrees (pos n) = pos (n / 10)
whole_degrees (negsuc n) = sub_ℕ 0 (suc n / 10)

unfoldable pub tenths : ℤ → ℕ
tenths (pos n) = n % 10
tenths (negsuc n) = suc n % 10

abbrev is_negative : ℤ → Bool
is_negative (pos n) = false
is_negative (negsuc n) = true

abbrev is_zero : ℤ → Bool
is_zero (pos n) = n == 0
is_zero (negsuc n) = false

-- The line that `ds18b20_complete` prints, part by part.
unfoldable pub print_temperature : Ring → ℤ → Ring
print_temperature r temp =
    let whole = whole_degrees temp in
    let r1 =
      if is_zero whole && is_negative temp
      then (write_str r (codes "-0")).0
      else (write_int r whole).0 in
    (write_str (write_int (write_str r1 (codes ".")).0 (pos (tenths temp))).0
      (codes " C" ++ crlf)).0

abbrev is_value : ℤ → ℤ → Bool
is_value (pos a) (pos b) = a == b
is_value (negsuc a) (negsuc b) = a == b
is_value _ _ = false

-- `ds18b20_complete`.
unfoldable pub show_result : ℕ → Demo → ℤ → Demo
show_result now d temp =
    let d' =
      if is_value temp temp_error_no_sensor
      then say d (codes "no sensor detected." ++ crlf)
      else if is_value temp temp_error_crc_fail
      then say d (codes "CRC check failed." ++ crlf)
      else if is_value temp temp_error_generic
      then say d (codes "generic failure." ++ crlf)
      else record d { ring = print_temperature d.ring temp } in
    record d' { pause_end_ms = u32 (now + period_ms) }

-- The results among the last `n` callbacks, the oldest first.
unfoldable pub results : ℕ → List Callback → List ℤ
results zero l = []
results (suc n) [] = []
results (suc n) (busy a ∷ l) = results n l
results (suc n) (complete t ∷ l) = results n l ++ t ∷ []

unfoldable pub show_results : ℕ → Demo → List ℤ → Demo
show_results now d [] = d
show_results now d (t ∷ ts) = show_results now (show_result now d t) ts

-- `ds18b20_poll`, with the callbacks that it makes.
unfoldable pub poll_measure : ℕ → Demo → Demo
poll_measure now d =
    let w = poll d.world in
    show_results now (put_world d w)
      (results (length w.owner.log - length d.world.owner.log) w.owner.log)

-- A measurement is requested, and the pause to the next one starts.
unfoldable pub request : ℕ → Demo → Demo
request now d = record d { world = start_measure d.world; pause_end_ms = u32 (now + period_ms) }

-- `(int32_t)(now - pause_end_ms) >= 0`.
abbrev pub is_over : ℕ → Demo → Bool
is_over now d = ltb (u32 (now + 2 ^ 32 - d.pause_end_ms)) (2 ^ 31)

abbrev next_step : Step → Step
next_step power = baseline
next_step baseline = set_alarm
next_step set_alarm = after_set
next_step after_set = copy
next_step copy = set_again
next_step set_again = after_second
next_step after_second = recall
next_step recall = after_recall
next_step after_recall = get_rom
next_step get_rom = set_force
next_step set_force = alarm_search
next_step alarm_search = measure
next_step measure = measure

abbrev pub is_measure : Step → Bool
is_measure measure = true
is_measure _ = false

-- The branch of the loop in which the device search has ended.
unfoldable pub searched : Demo → Demo
searched d =
    let d1 =
      say (say_int (say d (codes "Found ")) (pos (device_count d.world)))
        (codes " device(s)." ++ crlf) in
    let d2 = record d1 { search_running = false } in
    if ltb 0 (device_count d2.world)
    then record (start_step power
        (record d2 { world = select d2.world (device_rom d2.world 0); step = power })) {
          cmd_running = true;
        }
    else record d2 { step = measure }

-- The branch of the loop in which a command has ended.
unfoldable pub commanded : ℕ → Demo → Demo
commanded now d =
    let s = next_step d.step in
    let d' = record (finish_step d.step (record d { cmd_running = false })) { step = s } in
    if is_measure s
    then request now (say d' (codes "Command demo done. Measuring selected device:" ++ crlf))
    else d'

-- The branches of the loop of `main`.
unfoldable pub react : ℕ → Demo → Demo
react now d =
    if d.search_running
    then (let (w, is_done) = device_search_poll d.world in
        if is_done then searched (put_world d w) else put_world d w)
    else if is_measure d.step
    then (let d' = poll_measure now d in if is_over now d' then request now d' else d')
    else if not d.cmd_running
    then record (start_step d.step d) { cmd_running = true }
    else (let (d', is_done) = poll_step d.step d in if is_done then commanded now d' else d')

-- One round of the loop of `main`.
unfoldable pub round : ℕ → Demo → Demo
round now d = let d' = react now d in record d' { ring = poll_tx d'.ring }

-- The start of `main` on the statics at reset, for a timer clock in MHz.
unfoldable pub boot : ℕ → World → Ring → Demo
boot mhz w r =
    let d : Demo = record {
      world = init mhz w;
      ring = r;
      step = measure;
      search_running = true;
      cmd_running = false;
      pause_end_ms = 0;
      scratchpad = replicate 9 0;
      rom = replicate 8 0;
    } in
    let d' =
      say (say d (codes "DS18B20 5_commands starting..." ++ crlf))
        (codes "Searching 1-Wire bus..." ++ crlf) in
    put_world d' (search_start d'.world (some (λ rom. 0)) max_found)
