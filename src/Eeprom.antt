-- ===== src/Eeprom.antt =====
-- The EEPROM demonstration, examples/8_ds2431/main.c, over the DS2431 driver and the console. It searches
-- the bus, then serves each device found: reads its first row, writes it back with every byte incremented,
-- copies and reads again; behind that it only repeats the search. `app_millis()` has one value, `now`, in a
-- round of the loop. A buffer given to the driver is taken over when the poll that fills it returns, and the
-- ROM that a search poll hands to the sink is handled behind the poll. `found_roms` holds the ROMs of the
-- current search, so that its length is `rom_count`.
pub mod Kept
pub mod Turns
pub mod Steps
pub mod Order
pub mod Branches
pub mod Invariant
pub mod Accepted
pub mod Once
pub mod Told
pub mod Row
mod Tests
use stm32_async_1wire.Prelude.{
  ℕ, zero, suc, ◌+◌, ◌-◌, ◌^◌, Bool, true, false, not, ◌&&◌, List, [], ◌∷◌, ◌++◌, Option, none,
  some, get_or, take, length, replicate, ltb, leb, ◌==◌, if◌then◌else◌,
}
use stm32_async_1wire.Prelude.Int.{pos}
use stm32_async_1wire.Wire.{u8, u32}
use stm32_async_1wire.Console.{Ring, codes, write_str, write_int, write_hex, enqueue_byte, poll_tx}
use stm32_async_1wire.OneWire.{Sink, search_start, search_poll, search_count}
use stm32_async_1wire.Ds2431.Context.{
  Ctx, World, init, select, last_command_ok, eeprom_size, scratch_size, scratch_frame,
}
use stm32_async_1wire.Ds2431.Txn.{poll}
use stm32_async_1wire.Ds2431.Memory.{read_memory, read_memory_poll, read_scratchpad_poll}
use stm32_async_1wire.Ds2431.Memory

-- `step_t`, without the prefix.
pub data Step : Type 0 where
  search read_baseline write_scratchpad read_scratchpad copy_scratchpad read_back done : Step

-- The statics of the file, over the driver and the console.
pub record Demo : Type 0 where
  pub world : World
  pub ring : Ring
  pub step : Step
  pub search_running : Bool
  pub cmd_running : Bool
  pub demo_done : Bool
  pub next_search_ms : ℕ
  pub found_roms : List (List ℕ)
  pub dev_idx : ℕ
  pub eeprom_data : List ℕ
  pub frame : List ℕ
  pub write_data : List ℕ

abbrev pub max_devices : ℕ
max_devices = 8

abbrev pub identify_interval_ms : ℕ
identify_interval_ms = 1000

abbrev pub family_code : ℕ
family_code = 0x2d

abbrev pub rom_count : Demo → ℕ
rom_count d = length d.found_roms

abbrev pub say : Demo → List ℕ → Demo
say d s = record d { ring = (write_str d.ring s).0 }

abbrev pub crlf : List ℕ
crlf = 13 ∷ 10 ∷ []

-- The loop of `print_rom` and of `print_bytes`.
unfoldable pub print_hex : Ring → List ℕ → Ring
print_hex r [] = r
print_hex r (b ∷ []) = (write_hex r b).0
print_hex r (b ∷ c ∷ bytes) = print_hex (enqueue_byte (write_hex r b).0 32).0 (c ∷ bytes)

-- A text, bytes and a line end: `print_bytes`, and the lines with a `print_rom`.
unfoldable pub print_bytes : Demo → List ℕ → List ℕ → Demo
print_bytes d label bytes =
    let d' = say d label in say (record d' { ring = print_hex d'.ring bytes }) crlf

-- `bytes_equal`.
unfoldable pub bytes_equal : List ℕ → List ℕ → ℕ → Bool
bytes_equal a b zero = true
bytes_equal a b (suc len) = bytes_equal a b len && get_or a len 0 == get_or b len 0

abbrev pub put_world : Demo → World → Demo
put_world d w = record d { world = w }

-- `start_step`.
unfoldable pub start_step : Step → Demo → Demo
start_step read_baseline d =
    put_world (say d (codes "Read Memory (0xF0) - baseline:" ++ crlf))
      (read_memory d.world (some d.eeprom_data) 0 scratch_size)
start_step write_scratchpad d =
    put_world
      (print_bytes (say d (codes "Write Scratchpad (0x0F): ")) [] (take scratch_size d.write_data))
      (Memory.write_scratchpad d.world 0 (some d.write_data) scratch_size).0
start_step read_scratchpad d =
    put_world (say d (codes "Read Scratchpad (0xAA):" ++ crlf))
      (Memory.read_scratchpad d.world (some d.frame))
start_step copy_scratchpad d =
    put_world (say d (codes "Copy Scratchpad (0x55) -> EEPROM (t_PROG hold-off):" ++ crlf))
      (Memory.copy_scratchpad d.world)
start_step read_back d =
    put_world (say d (codes "Read Memory (0xF0) - after copy:" ++ crlf))
      (read_memory d.world (some d.eeprom_data) 0 scratch_size)
start_step search d = d
start_step done d = d

-- What a buffer holds behind a poll: what the driver has written, or what it held.
abbrev filled : Option (List ℕ) → List ℕ → List ℕ
filled none old = old
filled (some out) old = out

-- `poll_step` of a memory read.
unfoldable pub poll_memory : Demo → Demo × Bool
poll_memory d =
    let (w, is_done) = read_memory_poll d.world in
    (record d { world = w; eeprom_data = filled w.owner.out d.eeprom_data }, is_done)

-- `poll_step` of a step whose poll is `ds2431_poll`.
unfoldable pub poll_command : Demo → Demo × Bool
poll_command d = let (w, is_done) = poll d.world in (put_world d w, is_done)

-- `poll_step`.
unfoldable pub poll_step : Step → Demo → Demo × Bool
poll_step read_baseline d = poll_memory d
poll_step read_back d = poll_memory d
poll_step write_scratchpad d = poll_command d
poll_step read_scratchpad d =
    let (w, is_done) = read_scratchpad_poll d.world in
    (record d { world = w; frame = filled w.owner.out d.frame }, is_done)
poll_step copy_scratchpad d = poll_command d
poll_step search d = (d, true)
poll_step done d = (d, true)

-- The next value of a row: every byte incremented.
unfoldable pub next_row : List ℕ → List ℕ
next_row [] = []
next_row (b ∷ row) = u8 (b + 1) ∷ next_row row

-- The `switch` of `finish_step`.
unfoldable pub use_result : Step → Demo → Demo
use_result read_baseline d =
    record (print_bytes d (codes "  EEPROM: ") (take scratch_size d.eeprom_data)) {
      write_data = next_row (take scratch_size d.eeprom_data);
    }
use_result write_scratchpad d = say d (codes "  scratchpad written" ++ crlf)
use_result read_scratchpad d = print_bytes d (codes "  frame: ") (take scratch_frame d.frame)
use_result copy_scratchpad d = say d (codes "  copied to EEPROM" ++ crlf)
use_result read_back d =
    say (print_bytes d (codes "  EEPROM: ") (take scratch_size d.eeprom_data)) (
      if bytes_equal d.eeprom_data d.write_data scratch_size
      then codes "  read-back matches the write" ++ crlf
      else codes "  read-back DIFFERS from the write" ++ crlf)
use_result search d = d
use_result done d = d

-- `finish_step`.
unfoldable pub finish_step : Step → Demo → Demo
finish_step s d =
    if not (last_command_ok d.world)
    then say d (codes "  no device present; operation aborted" ++ crlf)
    else use_result s d

-- The callback given to the search: what it does to the driver, and its answer.
abbrev pub sink : Sink Ctx
sink rom c = (c, 0)

-- What `device_found_sink` does to the statics.
unfoldable pub found_sink : Demo → List ℕ → Demo
found_sink d rom =
    let roms =
      if ltb (rom_count d) max_devices then d.found_roms ++ take 8 rom ∷ [] else d.found_roms in
    print_bytes (record d { found_roms = roms }) (codes "  ROM: ") (take 8 rom)

-- `start_search`.
unfoldable pub start_search : Demo → Demo
start_search d =
    let d1 : Demo = record d { found_roms = []; dev_idx = 0; step = search } in
    let d2 = say d1 (codes "Searching 1-Wire bus..." ++ crlf) in
    record d2 {
      world = search_start d2.world (some sink) max_devices 0xf0 family_code;
      search_running = true;
    }

-- A device is selected, for its first step.
unfoldable pub select_found : Demo → ℕ → Demo
select_found d i =
    let rom = get_or d.found_roms i [] in
    let d' = print_bytes d (codes "Selected ROM: ") (take 8 rom) in
    record d' { world = select d'.world (some rom); step = read_baseline }

-- The interval to the next search starts.
abbrev pub rest : ℕ → Demo → Demo
rest now d = record d { next_search_ms = u32 (now + identify_interval_ms); step = done }

-- `onewire_search_poll`, with the ROM that it hands to the sink.
unfoldable pub poll_search : Demo → Demo × Bool
poll_search d =
    let (w, is_done) = search_poll d.world in
    let d' = put_world d w in
    if w.search.found == d.world.search.found
    then (d', is_done)
    else (found_sink d' d.world.search.rom, is_done)

-- The branch of the loop in which the search has ended.
unfoldable pub searched : ℕ → Demo → Demo
searched now d =
    let d1 = say d (codes "Found ") in
    let d2 : Demo = record d1 { ring = (write_int d1.ring (pos (search_count d1.world))).0 } in
    let d3 : Demo = record (say d2 (codes " device(s)." ++ crlf)) { search_running = false } in
    if not d3.demo_done && not (rom_count d3 == 0)
    then record (start_step read_baseline (select_found d3 0)) { cmd_running = true }
    else rest now (if rom_count d3 == 0 then say d3 (codes "No DS2431 found." ++ crlf) else d3)

-- `(int32_t)(now - next_search_ms) >= 0`.
abbrev pub is_over : ℕ → Demo → Bool
is_over now d = ltb (u32 (now + 2 ^ 32 - d.next_search_ms)) (2 ^ 31)

-- The branch of the loop in which the demonstration rests.
unfoldable pub rested : ℕ → Demo → Demo
rested now d =
    let d' =
      if d.demo_done then d else say (record d { demo_done = true }) (codes "Demo done." ++ crlf) in
    if is_over now d' then start_search d' else d'

-- Behind the last step of a device: the next device, or the rest.
unfoldable pub served : ℕ → Demo → Demo
served now d =
    let i = u8 (d.dev_idx + 1) in
    let d' : Demo = record d { dev_idx = i } in
    if leb (rom_count d') i then rest now d' else select_found d' i

abbrev pub next_step : Step → Step
next_step search = read_baseline
next_step read_baseline = write_scratchpad
next_step write_scratchpad = read_scratchpad
next_step read_scratchpad = copy_scratchpad
next_step copy_scratchpad = read_back
next_step read_back = done
next_step done = done

abbrev pub is_read_back : Step → Bool
is_read_back read_back = true
is_read_back _ = false

abbrev pub is_done : Step → Bool
is_done done = true
is_done _ = false

-- The branch of the loop in which a command has ended.
unfoldable pub commanded : ℕ → Demo → Demo
commanded now d =
    let d' = finish_step d.step (record d { cmd_running = false }) in
    if is_read_back d.step then served now d' else record d' { step = next_step d.step }

-- The branches of the loop of `main`.
unfoldable pub react : ℕ → Demo → Demo
react now d =
    if d.search_running
    then (let (d', ended) = poll_search d in if ended then searched now d' else d')
    else if is_done d.step
    then rested now d
    else if not d.cmd_running
    then record (start_step d.step d) { cmd_running = true }
    else (let (d', ended) = poll_step d.step d in if ended then commanded now d' else d')

-- One round of the loop of `main`.
unfoldable pub round : ℕ → Demo → Demo
round now d = let d' = react now d in record d' { ring = poll_tx d'.ring }

-- The start of `main` on the statics at reset, for a timer clock in MHz.
unfoldable pub boot : ℕ → World → Ring → Demo
boot mhz w r =
    let d : Demo = record {
      world = w;
      ring = r;
      step = search;
      search_running = true;
      cmd_running = false;
      demo_done = false;
      next_search_ms = 0;
      found_roms = [];
      dev_idx = 0;
      eeprom_data = replicate eeprom_size 0;
      frame = replicate scratch_frame 0;
      write_data = replicate scratch_size 0;
    } in
    let d' = say d (codes "DS2431 8_ds2431 starting..." ++ crlf) in
    start_search (put_world d' (init mhz d'.world))
