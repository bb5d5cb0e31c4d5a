-- ===== src/Ds18b20/Round.antt =====
-- A round of the scan mode: src/ds18b20_measure.c from the request of a round to its last device, with
-- what the running timer completes before each poll. The application polls until the driver is idle
-- again.
pub mod States
pub mod Armed
pub mod Reports
mod Tests
use stm32_async_1wire.Prelude.{
  ℕ, zero, suc, ◌+◌, ◌<◌, ◌≤◌, Bool, true, false, not, ◌&&◌, ◌||◌, List, [], ◌∷◌, ◌++◌, get_or,
  take, length, All, ltb, ◌==◌, if◌then◌else◌, ◌≡◌, refl, sym, ap, ◌∙◌, arith, Bool-cases, inl, inr,
}
use stm32_async_1wire.Prelude.Int.{ℤ}
use stm32_async_1wire.Wire.{decode_overlaid, crc8, present, u8}
use stm32_async_1wire.Port.{Port}
use stm32_async_1wire.Wire.Codec.{IsByte, message}
use stm32_async_1wire.Port.Slots.{slot_pulses}
use stm32_async_1wire.Port
use stm32_async_1wire.OneWire.{
  op_done, has_presence, reset_bus, write_slots, read_data, strong_pullup, start_wait,
  search_active,
}
use stm32_async_1wire.Ds18b20.Context.{
  State, World, Ctx, put_ctx, call_back, Callback, busy, complete, idle, start, convert, wait,
  continue, request, read, decode, is_idle, capture_view, decode_scratchpad, check_scratchpad_crc,
  decode_temperature, build_addr_cmd, temp_error_no_sensor, temp_error_crc_fail,
}
use stm32_async_1wire.Ds18b20.Measure.{
  poll, poll_state, poll_start, poll_convert, poll_request, poll_decode, report, verdict, all_ones,
  issue_command, send_command, scan_finish_or_next, parasite_pullup,
}
use stm32_async_1wire.Ds18b20.Calls.{hardware}

-- What the hardware leaves before a poll: registers and buffers hold anything. The update flag is raised
-- exactly if the timer runs or the flag was raised already.
pub record Event : Type 0 where
  pub port : Port
  pub pair : List ℕ
  pub triple : List ℕ
  pub storage : List ℕ

-- The timer runs, or its flag is raised.
abbrev pub due : World → Bool
due w = w.port.running || w.port.uif

abbrev pub happens : Event → World → World
happens e w =
    hardware (record (e.port) { running = false; uif = due w }) e.pair e.triple e.storage w

-- The same, with the flag raised.
abbrev pub completes : Event → World → World
completes e w =
    hardware (record (e.port) { running = false; uif = true }) e.pair e.triple e.storage w

-- A device answered the reset that the event completes.
abbrev pub answered : Event → Bool
answered e = present (capture_view e.storage) (Port.reset_captured e.port)

-- The states in which a command is on the bus.
abbrev pub is_sending : State → Bool
is_sending wait = true
is_sending read = true
is_sending _ = false

-- Polls until the driver is idle.
unfoldable pub polls : List Event → World → World
polls [] w = w
polls (e ∷ es) w =
    let rest = polls es (poll (happens e w)) in
    if is_idle w.owner.ctx.current_state then w else rest

-- The events of a device's turn: the gap is over, the reset is over, the command is sent, the
-- scratchpad is read.
pub record Turn : Type 0 where
  pub gap : Event
  pub presence : Event
  pub sent : Event
  pub answer : Event

abbrev pub turn_events : List Turn → List Event
turn_events [] = []
turn_events (t ∷ ts) = t.gap ∷ t.presence ∷ t.sent ∷ t.answer ∷ turn_events ts

-- What a scratchpad, captured as pulses, is reported as.
abbrev pub heard : List ℕ → ℤ
heard pulses =
    let s = decode_overlaid pulses 9 in
    if all_ones 9 s
    then temp_error_no_sensor
    else if get_or s 5 0 == 0xff && get_or s 7 0 == 0x10 && get_or s 8 0 == crc8 s 8
    then decode_temperature (get_or s 0 0) (get_or s 1 0)
    else temp_error_crc_fail

-- The callbacks of the turns, in order: one report for each device, up to a reset that none answers.
abbrev pub told : List Turn → List Callback
told [] = []
told (t ∷ ts) =
    if answered t.presence
    then busy 0 ∷ complete (heard t.answer.storage) ∷ told ts
    else busy 0 ∷ complete temp_error_no_sensor ∷ []

-- A log, the latest first, behind further callbacks.
abbrev pub logged : List Callback → List Callback → List Callback
logged [] l = l
logged (c ∷ cs) l = logged cs (c ∷ l)

-- What these polls put on the bus after a presence pulse, in order: the pulses of the slots that the armed
-- port sends.
unfoldable pub sent : List Event → World → List (List ℕ)
sent [] w = []
sent (e ∷ es) w =
    let w' = poll (happens e w) in
    let rest = sent es w' in
    if is_idle w.owner.ctx.current_state
    then []
    else if is_sending w'.owner.ctx.current_state
    then slot_pulses w'.port ∷ rest
    else rest

-- The start of a round: the forced update, the reset, the conversion command.
pub record Opening : Type 0 where
  pub kicked : Event
  pub presence : Event
  pub sent : Event

abbrev pub round_events : Opening → List Turn → List Event
round_events o ts = o.kicked ∷ o.presence ∷ o.sent ∷ turn_events ts

-- The callbacks of a round, in order.
abbrev pub round_told : Opening → List Turn → List Callback
round_told o ts =
    busy 1 ∷ (if answered o.presence then told ts else busy 0 ∷ complete temp_error_no_sensor ∷ [])

-- The eight bytes of a stored ROM.
pub record IsDeviceRom (rom : List ℕ) : Type 0 where
  pub size : length rom ≡ 8
  pub bytes : All IsByte rom

-- The messages of the turns from device `k` on: Match ROM, its ROM and Read Scratchpad, up to a reset that
-- none answers.
abbrev pub turn_messages : List (List ℕ) → ℕ → List Turn → List (List ℕ)
turn_messages roms k [] = []
turn_messages roms k (t ∷ ts) =
    if answered t.presence
    then message (0x55 ∷ get_or roms k [] ++ 0xbe ∷ []) ∷ turn_messages roms (k + 1) ts
    else []

-- The messages of a round: Skip ROM and Convert T before the turns.
abbrev pub round_messages : List (List ℕ) → Opening → List Turn → List (List ℕ)
round_messages roms o ts =
    if answered o.presence then message (0xcc ∷ 0x44 ∷ []) ∷ turn_messages roms 0 ts else []
