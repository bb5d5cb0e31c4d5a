-- ===== src/Ds18b20/Safety.antt =====
-- Every call and every hardware event keeps the driver's invariant.
use stm32_async_1wire.Prelude.{
  ℕ, ◌/◌, ◌≤◌, Bool, true, false, not, ◌||◌, inl, inr, List, Option, get_or, ◌≡◌, arith, Bool-cases,
}
use stm32_async_1wire.Prelude.Masks.{bit_and_le}
use stm32_async_1wire.Port.{Port}
use stm32_async_1wire.OneWire.{
  search_active, reset_bus, op_done, write_slots, read_data, strong_pullup, start_wait, timer_kick,
}
use stm32_async_1wire.Ds18b20.Context.{
  State, TxnPhase, World, build_addr_cmd, Ctx, idle, start, convert, wait, continue, request, read,
  decode, put_state, decode_scratchpad, Callback, convert_t, read_scratchpad,
}
use stm32_async_1wire.Ds18b20.Txn.{
  txn_start, txn_can_start, txn_build_pulses, txn_poll, txn_poll_phase, txn_switch, txn_after_write,
  txn_decode_read, txn_copy_out, read_rom_poll, read_scratchpad_poll, take_scratchpad,
  detect_parasite_poll, set_parasite, start_read_rom, set_alarm_thresholds, start_read_scratchpad,
  start_copy_scratchpad, start_recall_eeprom, detect_parasite,
}
use stm32_async_1wire.Ds18b20.Measure.{
  scan_finish_or_next, start_measure, scan_start, send_command, issue_command, verdict, poll_start,
  poll_convert, poll_request, report, poll_decode, poll_state, poll, parasite_pullup,
}
use stm32_async_1wire.Ds18b20.Search.{device_search_poll}
use stm32_async_1wire.Ds18b20.Invariant.{
  IsValid, search_start-IsValid, alarm_search_start-IsValid, device_poll-IsValid, select-IsValid,
  set_resolution-IsValid, set_resolution_poll-IsValid,
}
use stm32_async_1wire.Ds18b20.Calls.{
  Start, Poll, begin, advance, hardware, Run, measure, scan, find, find_alarms, choose,
  change_resolution, get_rom, get_scratchpad, set_thresholds, copy_to_eeprom, recall, detect,
  at_measure, at_scratchpad, at_rom, at_command, at_parasite, at_resolution, at_devices, stop,
  started, polled, powered, elapsed,
}

txn_start-IsValid :
    (w : World) (command : ℕ) (out : Option (List ℕ)) (payload : List ℕ)
    (payload_len read_bytes wait_us : ℕ) (bare : Bool)
    → IsValid w
    → IsValid (txn_start w command out payload payload_len read_bytes wait_us bare)
unfolding txn_start txn_can_start txn_build_pulses strong_pullup reset_bus search_active
txn_start-IsValid w command out payload payload_len read_bytes wait_us bare v = ground arith

txn_phase-IsValid :
    (phase : TxnPhase) (w : World)
    → IsValid w
    → w.owner.txn.finished ≡ false
    → IsValid (txn_poll_phase phase w).0
unfolding txn_poll_phase txn_switch txn_after_write txn_decode_read op_done write_slots read_data
    strong_pullup start_wait search_active
txn_phase-IsValid TxnPhase.reset w v f = ground arith
txn_phase-IsValid TxnPhase.write w v f = ground arith
txn_phase-IsValid TxnPhase.read w v f = ground arith
txn_phase-IsValid TxnPhase.wait w v f = ground arith
txn_phase-IsValid TxnPhase.done w v f = ground arith

txn_poll-IsValid : (w : World) → IsValid w → IsValid (txn_poll w).0
unfolding txn_poll
txn_poll-IsValid w v = ground (arith, txn_phase-IsValid w.owner.txn.phase w)

start_measure-IsValid : (w : World) → IsValid w → IsValid (start_measure w)
unfolding start_measure timer_kick search_active
start_measure-IsValid w v = ground arith

scan_start-IsValid : (w : World) → IsValid w → IsValid (scan_start w)
unfolding scan_start search_active
scan_start-IsValid w v = ground arith

set_parasite-IsValid : (w : World) (parasite : ℕ) → IsValid w → IsValid (set_parasite w parasite)
unfolding set_parasite search_active
set_parasite-IsValid w parasite v = ground arith

hardware-IsValid :
    (port : Port) (pair triple storage : List ℕ) (w : World)
    → IsValid w
    → IsValid (hardware port pair triple storage w)
unfolding hardware search_active
hardware-IsValid port pair triple storage w v = ground arith

verdict_lo : (c : Ctx) → 9 ≤ c.resolution → 9 ≤ (verdict c).1
unfolding verdict
verdict_lo c h = ground arith

verdict_hi : (c : Ctx) → c.resolution ≤ 12 → (verdict c).1 ≤ 12
unfolding verdict
verdict_hi c h = ground (arith, bit_and_le (get_or c.storage 4 0 / 32) 3)

pullup-IsValid : (w : World) (on : Bool) → IsValid w → IsValid (parasite_pullup w on)
unfolding parasite_pullup strong_pullup search_active
pullup-IsValid w on v = ground arith

-- What the measurement relies on: no other activity, or none at all.
abbrev IsOwner : World → Type 0
IsOwner w =
    (w.search.finished ≡ true) × (w.owner.res.finished ≡ true) × (w.owner.txn.finished ≡ true)

issue-IsValid :
    (w : World) (cmd_byte : ℕ) (next : State)
    → IsOwner w
    → IsValid w
    → IsValid (issue_command w cmd_byte next)
unfolding issue_command send_command build_addr_cmd write_slots strong_pullup search_active
    parasite_pullup
issue-IsValid w cmd_byte next o v = ground arith

finish-IsValid : (w : World) → IsOwner w → IsValid w → IsValid (scan_finish_or_next w)
unfolding scan_finish_or_next strong_pullup search_active start_wait parasite_pullup
finish-IsValid w o v = ground arith

poll_start-IsValid : (w : World) → IsOwner w → IsValid w → IsValid (poll_start w)
unfolding poll_start strong_pullup search_active reset_bus parasite_pullup
poll_start-IsValid w o v = ground arith

-- A change of the measurement's own fields, at any state and any resolution in range.
measure-IsValid :
    (w : World) (c : Ctx) (s : List Callback)
    → IsOwner w
    → 9 ≤ c.resolution
    → c.resolution ≤ 12
    → IsValid w
    → IsValid (record w { owner = record (w.owner) { ctx = c; log = s } })
unfolding search_active
measure-IsValid w c s o lo hi v = ground arith

poll_convert-IsValid : (w : World) → IsOwner w → IsValid w → IsValid (poll_convert w)
unfolding poll_convert strong_pullup search_active parasite_pullup
poll_convert-IsValid w o v = issue-IsValid _ convert_t wait (ground arith) (ground arith)

poll_request-IsValid : (w : World) → IsOwner w → IsValid w → IsValid (poll_request w)
unfolding poll_request strong_pullup search_active parasite_pullup
poll_request-IsValid w o v = issue-IsValid _ read_scratchpad read (ground arith) (ground arith)

report-IsValid :
    (w : World) (c : Ctx)
    → IsOwner w
    → 9 ≤ c.resolution
    → c.resolution ≤ 12
    → IsValid w
    → IsValid (report w c)
unfolding report
report-IsValid w c o lo hi v =
    finish-IsValid _ o (measure-IsValid w _ _ o (verdict_lo c lo) (verdict_hi c hi) v)

poll_decode-IsValid : (w : World) → IsOwner w → IsValid w → IsValid (poll_decode w)
unfolding poll_decode decode_scratchpad search_active
poll_decode-IsValid w o v =
    report-IsValid _ _ o (ground arith) (ground arith)
      (measure-IsValid w w.owner.ctx _ o v.resolution_lo v.resolution_hi v)

poll_state-IsValid : (s : State) (w : World) → IsOwner w → IsValid w → IsValid (poll_state s w)
unfolding poll_state read_data start_wait strong_pullup reset_bus search_active parasite_pullup
poll_state-IsValid idle w o v = ground (arith, poll_start-IsValid (put_state w start) o)
poll_state-IsValid start w o v = poll_start-IsValid w o v
poll_state-IsValid convert w o v = poll_convert-IsValid w o v
poll_state-IsValid wait w o v = ground arith
poll_state-IsValid continue w o v = ground arith
poll_state-IsValid request w o v = poll_request-IsValid w o v
poll_state-IsValid read w o v = ground arith
poll_state-IsValid decode w o v = poll_decode-IsValid w o v

op_done-IsValid : (w : World) → IsValid w → IsValid (op_done w).0
unfolding op_done search_active
op_done-IsValid w v = ground arith

is_owner :
    (w : World)
    → (search_active w || not w.owner.res.finished || not w.owner.txn.finished) ≡ false
    → IsOwner (op_done w).0
unfolding search_active op_done
is_owner w e = ground arith

poll-IsValid : (w : World) → IsValid w → IsValid (poll w)
unfolding poll
poll-IsValid w v =
    elim (Bool-cases (search_active w || not w.owner.res.finished || not w.owner.txn.finished)) [
      | inl e ↦ rw e v
      | inr e ↦ elim (Bool-cases (op_done w).1) [
        | inl d ↦ rw (e, d) (poll_state-IsValid _ _ (is_owner w e) (op_done-IsValid w v))
        | inr d ↦ rw (e, d) (op_done-IsValid w v)
      ]
    ]

read_rom_poll-IsValid : (w : World) → IsValid w → IsValid (read_rom_poll w).0
unfolding read_rom_poll txn_copy_out search_active
read_rom_poll-IsValid w v = ground (arith, txn_poll-IsValid w v)

read_scratchpad_poll-IsValid : (w : World) → IsValid w → IsValid (read_scratchpad_poll w).0
unfolding read_scratchpad_poll take_scratchpad txn_copy_out search_active
read_scratchpad_poll-IsValid w v =
    ground
      (arith, txn_poll-IsValid w v, bit_and_le (get_or (txn_poll w).0.owner.txn.raw 4 0 / 32) 3)

detect_parasite_poll-IsValid : (w : World) → IsValid w → IsValid (detect_parasite_poll w).0
unfolding detect_parasite_poll search_active
detect_parasite_poll-IsValid w v = ground (arith, txn_poll-IsValid w v)

begin-IsValid : (s : Start) (w : World) → IsValid w → IsValid (begin s w)
unfolding begin start_read_rom set_alarm_thresholds start_read_scratchpad start_copy_scratchpad
    start_recall_eeprom detect_parasite
begin-IsValid measure w v = start_measure-IsValid w v
begin-IsValid scan w v = scan_start-IsValid w v
begin-IsValid (find sink limit) w v = search_start-IsValid w sink limit v
begin-IsValid (find_alarms sink limit) w v = alarm_search_start-IsValid w sink limit v
begin-IsValid (choose rom) w v = select-IsValid w rom v
begin-IsValid (change_resolution bits) w v = set_resolution-IsValid w bits v
begin-IsValid (get_rom buf) w v = txn_start-IsValid w _ _ _ _ _ _ _ v
begin-IsValid (get_scratchpad buf) w v = txn_start-IsValid w _ _ _ _ _ _ _ v
begin-IsValid (set_thresholds th tl) w v = txn_start-IsValid w _ _ _ _ _ _ _ v
begin-IsValid copy_to_eeprom w v = txn_start-IsValid w _ _ _ _ _ _ _ v
begin-IsValid recall w v = txn_start-IsValid w _ _ _ _ _ _ _ v
begin-IsValid detect w v = txn_start-IsValid w _ _ _ _ _ _ _ v

advance-IsValid : (p : Poll) (w : World) → IsValid w → IsValid (advance p w)
unfolding advance device_search_poll
advance-IsValid at_measure w v = poll-IsValid w v
advance-IsValid at_scratchpad w v = read_scratchpad_poll-IsValid w v
advance-IsValid at_rom w v = read_rom_poll-IsValid w v
advance-IsValid at_command w v = txn_poll-IsValid w v
advance-IsValid at_parasite w v = detect_parasite_poll-IsValid w v
advance-IsValid at_resolution w v = set_resolution_poll-IsValid w v
advance-IsValid at_devices w v = device_poll-IsValid w v

-- From a world that satisfies the invariant, every run of calls and hardware events reaches only worlds
-- that satisfy it: at most one activity owns the timer, the device table holds at most eight ROMs, and
-- the resolution stays 9 to 12.
pub run-IsValid : {w v : World} → IsValid w → Run w v → IsValid v
run-IsValid h stop = h
run-IsValid h (started s run) = begin-IsValid s _ (run-IsValid h run)
run-IsValid h (polled p run) = advance-IsValid p _ (run-IsValid h run)
run-IsValid h (powered parasite run) = set_parasite-IsValid _ parasite (run-IsValid h run)
run-IsValid h (elapsed port pair triple storage run) =
    hardware-IsValid port pair triple storage _ (run-IsValid h run)
