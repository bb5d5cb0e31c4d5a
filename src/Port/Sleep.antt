-- ===== src/Port/Sleep.antt =====
-- Which scheduled operations a low-power application may sleep through: `ow_port_long_wait_pending` of
-- src/ow_port.h, a query of the timer's registers.
use stm32_async_1wire.Prelude.{
  ℕ, ◌+◌, ◌*◌, ◌≤◌, ◌<◌, Bool, true, false, not, List, ltb, if◌then◌else◌, ◌≡◌, refl, ap, arith,
}
use stm32_async_1wire.Port.{
  Port, plan_wait, start_wait, start_timer, update_event, timer_start, write_slots, feed_slots,
  write_ccr3, read_data, arm_capture, bus_done, slot_time, Buffer,
}
use stm32_async_1wire.Port.Wait.{max_wait, plan_wait_lem}

-- `OW_PORT_LONG_STAGE_US`.
abbrev pub long_stage_us : ℕ
long_stage_us = 1000

-- `ow_port_long_wait_pending`.
unfoldable pub long_wait_pending : Port → Bool
long_wait_pending p =
    if not p.running
    then false
    else if p.uif
    then false
    else ltb long_stage_us ((p.rcr + 1) * p.arr)

-- The one-pulse timer stops at its update event.
abbrev pub complete : Port → Port
complete p = record p { uif = true; running = false }

-- An operation of this length has been armed: it counts as long if it takes more than a millisecond, until it
-- completes, and no more when its completion is taken.
pub record IsTimed (us : ℕ) (p : Port) : Type 0 where
  pub pending : long_wait_pending p ≡ ltb long_stage_us us
  pub over : long_wait_pending (complete p) ≡ false
  pub consumed : long_wait_pending (bus_done (complete p)).0 ≡ false

armed-IsTimed :
    (us : ℕ) (p : Port)
    → p.running ≡ true
    → p.uif ≡ false
    → ltb long_stage_us ((p.rcr + 1) * p.arr) ≡ ltb long_stage_us us
    → IsTimed us p
unfolding long_wait_pending bus_done
armed-IsTimed us p r u e = record { pending = rw (r, u) e; over = refl; consumed = refl }

side_of : (us x : ℕ) → us ≤ x → (us ≤ 1000 → x ≤ 1000) → ltb long_stage_us x ≡ ltb long_stage_us us
side_of us x lo hi = ground arith

single :
    (us arr rcr : ℕ)
    → arr * (rcr + 1) < us + (rcr + 1)
    → rcr ≡ 0
    → us ≤ 1000
    → (rcr + 1) * arr ≤ 1000
single us arr rcr hi e h = let hi' = rw e at hi in rw e (omega arith)

-- A planned wait is as long as it is asked for, as far as a millisecond can tell.
same_side :
    (us arr rcr : ℕ)
    → us ≤ arr * (rcr + 1)
    → arr * (rcr + 1) < us + (rcr + 1)
    → (us ≤ 65535 → rcr ≤ 0)
    → ltb long_stage_us ((rcr + 1) * arr) ≡ ltb long_stage_us us
same_side us arr rcr lo hi one =
    side_of us ((rcr + 1) * arr) (grind arith)
      (λ h. single us arr rcr hi (omega (arith, one (omega arith))) h)

wait_side :
    (us : ℕ)
    → 0 < us
    → us ≤ max_wait
    → let (arr, rcr) = plan_wait us in ltb long_stage_us ((rcr + 1) * arr) ≡ ltb long_stage_us us
wait_side us pos le =
    let (lo, hi, small, cover, tight, least, shortest) = plan_wait_lem us pos le in
    same_side us _ _ cover tight (λ h. least us 0 h (omega arith))

-- An accepted write runs, and its slots are its time.
write_armed :
    (p : Port) (pulses : List ℕ) (slots : ℕ)
    → (write_slots p pulses slots).1 ≡ true
    → let p' = (write_slots p pulses slots).0 in
      (p'.running ≡ true) × (p'.uif ≡ false) × ((p'.rcr + 1) * p'.arr ≡ slots * slot_time)
unfolding write_slots feed_slots write_ccr3 update_event timer_start
write_armed p pulses slots h = ground arith

read_armed :
    (p : Port) (dst : Buffer) (bytes : ℕ)
    → (read_data p dst bytes).1 ≡ true
    → let p' = (read_data p dst bytes).0 in
      (p'.running ≡ true) × (p'.uif ≡ false) × ((p'.rcr + 1) * p'.arr ≡ 8 * bytes * slot_time)
unfolding read_data arm_capture write_ccr3 update_event timer_start
read_armed p dst bytes h = ground arith

-- The operations that take a variable time.
pub data Operation : Type 0 where
  wait : ℕ → Operation
  write : List ℕ → ℕ → Operation
  read : Buffer → ℕ → Operation

abbrev pub arm : Operation → Port → Port
arm (wait us) p = start_wait p us
arm (write pulses slots) p = (write_slots p pulses slots).0
arm (read dst bytes) p = (read_data p dst bytes).0

abbrev pub duration : Operation → ℕ
duration (wait us) = us
duration (write pulses slots) = slots * slot_time
duration (read dst bytes) = 8 * bytes * slot_time

-- The port accepts the operation; a wait is within the timer's reach.
abbrev pub IsAccepted : Operation → Port → Type 0
IsAccepted (wait us) p = (0 < us) × (us ≤ max_wait)
IsAccepted (write pulses slots) p = (write_slots p pulses slots).1 ≡ true
IsAccepted (read dst bytes) p = (read_data p dst bytes).1 ≡ true

-- An accepted operation counts as long exactly if it takes more than a millisecond, a wait by the time asked
-- for, a write or a read by its slots, until the timer completes it, and no more when its completion is taken.
pub arm-IsTimed : (op : Operation) (p : Port) → IsAccepted op p → IsTimed (duration op) (arm op p)
unfolding start_wait start_timer update_event timer_start
arm-IsTimed (wait us) p h = armed-IsTimed us _ refl refl (wait_side us h.0 h.1)
arm-IsTimed (write pulses slots) p h =
    let a = write_armed p pulses slots h in armed-IsTimed _ _ a.0 a.1 (ap (ltb long_stage_us) a.2)
arm-IsTimed (read dst bytes) p h =
    let a = read_armed p dst bytes h in armed-IsTimed _ _ a.0 a.1 (ap (ltb long_stage_us) a.2)
