-- ===== src/Ds18b20/Invariant.antt =====
-- The invariant of the driver over every sequence of calls and hardware events.
use stm32_async_1wire.Prelude.{
  ℕ, ◌+◌, ◌≤◌, inl, inr, Bool, true, false, not, List, Option, some, none, if◌then◌else◌, ◌≡◌, refl,
  arith, Bool-cases,
}
use stm32_async_1wire.OneWire.{
  Bus, Sink, search_active, call_sink, reset_bus, op_done, write_slots, read_data, strong_pullup,
  start_wait, timer_kick, search_poll,
}
use stm32_async_1wire.OneWire
use stm32_async_1wire.OneWire.Reports.{search_poll_reports}
use stm32_async_1wire.OneWire.Frame.{search_poll_sink, search_poll_finished}
use stm32_async_1wire.Ds18b20.Context.{
  ResPhase, reset, write, done, Driver, World, init, select, choose_rom, is_idle,
}
use stm32_async_1wire.Ds18b20.Resolution.{
  set_resolution, set_resolution_poll, build_res_pulses, res_switch, res_poll_phase,
}
use stm32_async_1wire.Ds18b20.Search.{
  search_start, alarm_search_start, store_rom, search_store_sink, search_alarm_sink,
}

abbrev pub flag : Bool → ℕ
flag b = if b then 1 else 0

-- How many activities own the timer.
abbrev pub active : World → ℕ
active w =
    flag (not (is_idle w.owner.ctx.current_state))
    + flag (search_active w)
    + (flag (not w.owner.res.finished) + flag (not w.owner.txn.finished))

-- A sink's step keeps the driver's contexts and the bound of the device table.
pub record IsKept (d d' : Driver) : Type 0 where
  pub same_ctx : d'.ctx ≡ d.ctx
  pub same_txn : d'.txn ≡ d.txn
  pub same_res : d'.res ≡ d.res
  pub devices_le : d.dev_count ≤ 8 → d'.dev_count ≤ 8

-- At most one activity owns the timer; the device table holds at most eight; the resolution, and the
-- one a running change is to set, are 9 to 12 bits; the search's sink is one of the driver's.
pub record IsValid (w : World) : Type 0 where
  pub exclusive : active w ≤ 1
  pub devices_le : w.owner.dev_count ≤ 8
  pub resolution_lo : 9 ≤ w.owner.ctx.resolution
  pub resolution_hi : w.owner.ctx.resolution ≤ 12
  pub pending_lo : w.owner.res.finished ≡ false → 9 ≤ w.owner.res.pending_res
  pub pending_hi : w.owner.res.finished ≡ false → w.owner.res.pending_res ≤ 12
  pub sink_keeps : (rom : List ℕ) (d : Driver) → IsKept d (call_sink w.search.sink rom d).0

pub store_sink_keeps : (rom : List ℕ) (d : Driver) → IsKept d (search_store_sink rom d).0
unfolding search_store_sink store_rom
store_sink_keeps rom d = ground arith

pub alarm_sink_keeps : (rom : List ℕ) (d : Driver) → IsKept d (search_alarm_sink rom d).0
unfolding search_alarm_sink
alarm_sink_keeps rom d = ground arith

pub search_start-IsValid :
    (w : World) (sink : Option (List ℕ → ℕ)) (limit : ℕ)
    → IsValid w
    → IsValid (search_start w sink limit)
unfolding search_start OneWire.search_start reset_bus search_active call_sink
search_start-IsValid w sink limit v = grind (arith, store_sink_keeps)

pub alarm_search_start-IsValid :
    (w : World) (sink : Option (List ℕ → ℕ)) (limit : ℕ)
    → IsValid w
    → IsValid (alarm_search_start w sink limit)
unfolding alarm_search_start OneWire.search_start reset_bus search_active call_sink
alarm_search_start-IsValid w sink limit v = grind (arith, alarm_sink_keeps)

pub report_keeps :
    (w : World)
    → ((rom : List ℕ) (d : Driver) → IsKept d (call_sink w.search.sink rom d).0)
    → IsKept w.owner (search_poll w).0.owner
report_keeps w keeps = elim (search_poll_reports w) [
  | inl silent ↦
      rw silent.same_owner
        (record { same_ctx = refl; same_txn = refl; same_res = refl; devices_le = λ h. h })
  | inr report ↦ rw report.sunk (keeps w.search.rom w.owner)
]

kept-IsValid :
    (w w' : World)
    → IsKept w.owner w'.owner
    → w'.search.sink ≡ w.search.sink
    → w.search.finished ≡ false
    → IsValid w
    → IsValid w'
unfolding search_active
kept-IsValid w w' k s f v = record {
  exclusive = rw (k.same_ctx, k.same_txn, k.same_res) (ground arith);
  devices_le = k.devices_le v.devices_le;
  resolution_lo = rw k.same_ctx v.resolution_lo;
  resolution_hi = rw k.same_ctx v.resolution_hi;
  pending_lo = rw k.same_res v.pending_lo;
  pending_hi = rw k.same_res v.pending_hi;
  sink_keeps = rw s v.sink_keeps;
}

pub device_poll-IsValid : (w : World) → IsValid w → IsValid (search_poll w).0
device_poll-IsValid w v = elim (Bool-cases w.search.finished) [
  | inl f ↦ rw (search_poll_finished w f) v
  | inr f ↦ kept-IsValid w (search_poll w).0 (report_keeps w v.sink_keeps) (search_poll_sink w) f v
]

pub select-IsValid : (w : World) (rom : Option (List ℕ)) → IsValid w → IsValid (select w rom)
unfolding select choose_rom
select-IsValid w none v = ground arith
select-IsValid w (some rom) v = ground arith

pub set_resolution-IsValid : (w : World) (bits : ℕ) → IsValid w → IsValid (set_resolution w bits)
unfolding set_resolution build_res_pulses reset_bus search_active
set_resolution-IsValid w bits v = ground arith

res_phase-IsValid :
    (phase : ResPhase) (w : World)
    → IsValid w
    → w.owner.res.finished ≡ false
    → IsValid (res_poll_phase phase w).0
unfolding res_poll_phase res_switch op_done write_slots search_active
res_phase-IsValid reset w v f = ground arith
res_phase-IsValid write w v f = ground arith
res_phase-IsValid done w v f = ground arith

pub set_resolution_poll-IsValid : (w : World) → IsValid w → IsValid (set_resolution_poll w).0
unfolding set_resolution_poll
set_resolution_poll-IsValid w v = ground (arith, res_phase-IsValid w.owner.res.phase w)

-- `ds18b20_init` establishes the invariant on the zeroed statics, where no search has a sink.
pub init-IsValid :
    (mhz : ℕ) (w : World)
    → is_idle w.owner.ctx.current_state ≡ true
    → w.owner.dev_count ≡ 0
    → w.search.sink ≡ none
    → IsValid (init mhz w)
unfolding init OneWire.init search_active call_sink
init-IsValid mhz w s d k = record {
  exclusive = ground arith;
  devices_le = omega arith;
  resolution_lo = omega arith;
  resolution_hi = omega arith;
  pending_lo = λ e. cc;
  pending_hi = λ e. cc;
  sink_keeps = λ rom d.
      rw k (record { same_ctx = refl; same_txn = refl; same_res = refl; devices_le = λ h. h });
}
