-- ===== src/Port.antt =====
-- The timer and DMA engine of src/ow_port.h, in its default build: no low-power sleep, no active
-- drive, OC3 preload on. A `Port` holds the registers of TIM1 that the engine programs, the two DMA
-- channels and the drive mode of the bus pin. The vendor's register masks are Boolean fields; a
-- channel's address register names the buffer it writes, or holds the pulses it reads.
-- `shadow` is the compare value that acts on the pin: it follows CCR3 at once without the OC3 preload,
-- and at an update event with it.
pub mod Wait
pub mod Clock
pub mod Sleep
pub mod Slots
pub mod Samples
mod Tests
use stm32_async_1wire.Prelude.{
  ℕ, zero, suc, ◌+◌, ◌-◌, ◌*◌, ◌/◌, ◌%◌, ◌≤◌, Bool, true, false, ◌||◌, List, get_or, drop, take,
  ltb, ◌==◌, if◌then◌else◌, replicate, ◌∷◌, min,
}
use stm32_async_1wire.Wire.{
  one_pulse, zero_pulse, guard_band, release_pulse, bits_per_byte, max_slots, max_read_bytes, u8,
  u16, capture_buf_size,
}

-- The buffers that a capture can be armed for: the two of the search, and the driver's views of its
-- context's storage.
pub data Buffer : Type 0 where
  search_pair_pulse search_pulse3 driver_capture driver_pulse : Buffer

pub record Capture : Type 0 where
  pub enabled : Bool
  pub target : Buffer
  pub count : ℕ
  pub wide : Bool

pub record Feed : Type 0 where
  pub enabled : Bool
  pub source : List ℕ
  pub count : ℕ

pub record Port : Type 0 where
  pub clocks : Bool
  pub psc : ℕ
  pub main_output : Bool
  pub push_pull : Bool
  pub arr : ℕ
  pub rcr : ℕ
  pub ccr2 : ℕ
  pub ccr3 : ℕ
  pub shadow : ℕ
  pub preload : Bool
  pub capture_mode : Bool
  pub pulse_out : Bool
  pub capture_in : Bool
  pub feed_request : Bool
  pub capture_request : Bool
  pub running : Bool
  pub uif : Bool
  pub capture : Capture
  pub feed : Feed

-- One bit slot, in microseconds.
abbrev pub slot_time : ℕ
slot_time = one_pulse + zero_pulse + guard_band

-- A write of CCR3.
unfoldable pub write_ccr3 : Port → ℕ → Port
write_ccr3 p v = record p { ccr3 = v; shadow = if p.preload then p.shadow else v }

-- `ow_port_reset_captured`.
unfoldable pub reset_captured : Port → ℕ
reset_captured p =
    let remaining = u16 p.capture.count in
    u8 (capture_buf_size - (if ltb capture_buf_size remaining then capture_buf_size else remaining))

-- `ow_port_kick`: the forced update sets the flag.
unfoldable pub kick : Port → Port
kick p = record p { shadow = p.ccr3; uif = true }

-- `ow_port_update_event`: the forced update, and the flag cleared.
unfoldable pub update_event : Port → Port
update_event p = record p { shadow = p.ccr3; uif = false }

-- `ow_port_init`, for a timer clock in MHz.
unfoldable pub init : ℕ → Port → Port
init mhz p = record p { clocks = true; psc = mhz - 1; main_output = true; push_pull = false }

-- `ow_port_bus_done`.
unfoldable pub bus_done : Port → Port × Bool
bus_done p = if p.uif then (record p { uif = false }, true) else (p, false)

-- `ow_port_set_pin_mode`.
unfoldable pub set_pin_mode : Port → Bool → Port
set_pin_mode p on = record p { push_pull = on }

-- `OW_PORT_TIMER_START`.
unfoldable pub timer_start : Port → Port
timer_start p = record p { running = true }

-- `ow_port_capture`.
unfoldable pub arm_capture : Port → Buffer → ℕ → Bool → Port
unfolding update_event write_ccr3 timer_start
arm_capture p dst count wide =
    let set = record p {
      preload = true;
      capture_mode = true;
      pulse_out = true;
      capture_in = true;
      feed_request = false;
      capture_request = true;
    } in
    let clean = write_ccr3 (update_event set) release_pulse in
    timer_start (record clean {
      capture = record { enabled = true; target = dst; count = count; wide = wide };
    })

-- `ow_port_feed`.
unfoldable pub feed_slots : Port → List ℕ → ℕ → Port × Bool
unfolding update_event write_ccr3 timer_start
feed_slots p cmd slots = if slots == 0 || ltb max_slots slots then (p, false) else (
  let first = write_ccr3 (record p { rcr = slots - 1; arr = slot_time }) (get_or cmd 0 0) in
      let set = record first {
        ccr2 = one_pulse + zero_pulse;
        preload = false;
        capture_mode = false;
        pulse_out = true;
        capture_in = false;
        feed_request = true;
        capture_request = false;
      } in
      timer_start (record (update_event set) {
        feed = record { enabled = true; source = drop 1 cmd; count = slots };
      }),
  true,
)

-- The larger part of `ow_port_plan_wait`: the number of periods.
unfoldable pub plan_periods : ℕ → ℕ
plan_periods us =
    let n = us / 65535 + (if us % 65535 == 0 then 0 else 1) in
    if n == 0 then 1 else if ltb 256 n then 256 else n

-- `ow_port_plan_wait`: the two register values.
unfoldable pub plan_wait : ℕ → ℕ × ℕ
plan_wait us =
    let n = plan_periods us in
    let period = us / n + (if us % n == 0 then 0 else 1) in
    (u16 (if ltb 65535 period then 65535 else if period == 0 then 1 else period), u8 (n - 1))

-- `ow_port_start_timer`.
unfoldable pub start_timer : Port → ℕ → ℕ → Port
unfolding update_event timer_start
start_timer p arr rcr = timer_start (
    update_event (record p { arr = arr; rcr = rcr; feed_request = false; capture_request = false }))

-- `ow_port_start_wait`.
unfoldable pub start_wait : Port → ℕ → Port
unfolding plan_wait start_timer
start_wait p us = let (arr, rcr) = plan_wait us in start_timer p arr rcr

-- `ow_port_reset`.
unfoldable pub reset : Port → Buffer → Port
unfolding arm_capture write_ccr3
reset p pulses =
    arm_capture (write_ccr3 (record p { rcr = 0; arr = 960 }) 480) pulses capture_buf_size true

-- `ow_port_write_slots`.
unfoldable pub write_slots : Port → List ℕ → ℕ → Port × Bool
unfolding feed_slots write_ccr3 update_event timer_start
write_slots p pulses slots =
    if slots == 0 || ltb max_slots slots
    then (p, false)
    else if slots == 1
    then (
      let first = write_ccr3 (record p { rcr = 0; arr = slot_time }) (get_or pulses 0 0) in
          let set = record first {
            preload = true;
            capture_mode = false;
            pulse_out = true;
            capture_in = false;
            feed_request = false;
            capture_request = false;
          } in
          timer_start (write_ccr3 (update_event set) release_pulse),
      true,
    )
    else feed_slots p pulses slots

-- `ow_port_read_pair`.
unfoldable pub read_pair : Port → Buffer → Port
unfolding arm_capture write_ccr3
read_pair p dst =
    arm_capture (write_ccr3 (record p { rcr = 1; arr = slot_time }) one_pulse) dst 2 true

-- `ow_port_write_then_read`.
unfoldable pub write_then_read : Port → ℕ → Buffer → List ℕ → Port
unfolding write_ccr3 update_event timer_start
write_then_read p bit dst read_pulse =
    let write_pulse = if bit == 0 then zero_pulse else one_pulse in
    let first = write_ccr3 (record p { rcr = 2; arr = slot_time }) write_pulse in
    let set = record first {
      ccr2 = one_pulse + zero_pulse;
      preload = false;
      capture_mode = true;
      pulse_out = true;
      capture_in = true;
      feed_request = false;
      capture_request = false;
    } in
    let armed = record (update_event set) {
      capture = record { enabled = true; target = dst; count = 3; wide = true };
      feed = record { enabled = true; source = read_pulse; count = 3 };
      feed_request = true;
      capture_request = true;
    } in
    timer_start (write_ccr3 armed write_pulse)

-- `ow_port_read_data`.
unfoldable pub read_data : Port → Buffer → ℕ → Port × Bool
unfolding arm_capture write_ccr3
read_data p dst bytes = if bytes == 0 || ltb max_read_bytes bytes then (p, false) else (
  let bits = u16 (bytes * bits_per_byte) in
      arm_capture (write_ccr3 (record p { rcr = bits - 1; arr = slot_time }) one_pulse) dst bits
        false,
  true,
)

-- `ow_port_strong_pullup`. The forced update sets the flag, and nothing clears it here.
unfoldable pub strong_pullup : Port → Bool → Port
unfolding write_ccr3 set_pin_mode kick
strong_pullup p on = set_pin_mode (if on then kick (write_ccr3 p 0) else p) on
