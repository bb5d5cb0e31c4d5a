-- ===== src/Recorder.antt =====
-- The temperature recorder, examples/9_multi/main.c: its records, its write jobs and the evaluation of
-- a round. The drivers that it calls are an interface, `Drivers`, over a state of their own; the texts
-- that it prints are left out. `app_millis()` has one value, `now`, while a state is handled.
pub mod Records
pub mod Image
pub mod Range
pub mod Queue
pub mod Step
pub mod Writes
pub mod Commit
pub mod Memory
pub mod Valid
pub mod Operations
pub mod Invariant
pub mod Fails
mod Tests
use stm32_async_1wire.Prelude.{
  ℕ, zero, suc, ◌+◌, ◌-◌, ◌*◌, ◌/◌, ◌%◌, ◌^◌, bit_and, Bool, true, false, not, ◌&&◌, ◌||◌, List, [],
  ◌∷◌, get_or, set, replicate, ltb, leb, ◌==◌, if◌then◌else◌,
}
use stm32_async_1wire.Prelude.Int.{ℤ, pos, negsuc, sub_ℕ, ◌+ℤ◌, ◌*ℤ◌, ltb_ℤ}
use stm32_async_1wire.Wire.{u8, u32, crc8}
use stm32_async_1wire.OneWire.{same_bytes}
use stm32_async_1wire.Ds18b20.Context.{max_devices, temp_error_generic, temp_error_crc_fail}

-- `state_t`; `waiting` is ST_WAIT.
pub data State : Type 0 where
  search_ds18 search_all boot_read measure_start measure_wait : State
  write_scratch write_verify write_copy write_readback waiting stop : State

-- `slot_t`.
pub record Slot : Type 0 where
  pub valid : Bool
  pub counter : ℕ
  pub temp : ℤ
  pub idx : ℕ
  pub rom_valid : Bool
  pub rom : List ℕ

-- `job_t`.
pub record Job : Type 0 where
  pub is_rom : Bool
  pub slot : ℕ
  pub addr : ℕ
  pub image : List ℕ

-- The calls of the drivers. A poll of the search or of a measurement returns the callbacks that it
-- made, in order: the ROMs reported, and the temperatures with their scan index. `read_bytes` is what
-- the last Read Memory has stored.
pub record Drivers (D : Type 0) : Type 0 where
  pub ds18_search_poll : D → D × Bool
  pub device_count : D → ℕ
  pub device_rom : D → ℕ → List ℕ
  pub scan_start : D → D
  pub start_measure : D → D
  pub select : D → List ℕ → D
  pub ds18_poll : D → D × List (ℤ × ℕ)
  pub search_start : D → D
  pub search_poll : D → (D × List (List ℕ)) × Bool
  pub ds2431_select : D → List ℕ → D
  pub read_memory : D → ℕ → ℕ → D
  pub read_memory_poll : D → D × Bool
  pub read_bytes : D → List ℕ
  pub write_scratchpad : D → ℕ → List ℕ → ℕ → D × Bool
  pub write_scratchpad_poll : D → D × Bool
  pub read_scratchpad : D → D
  pub read_scratchpad_poll : D → D × Bool
  pub copy_scratchpad : D → D
  pub copy_scratchpad_poll : D → D × Bool
  pub last_command_ok : D → Bool

-- The static variables of the file, the clock, and the state of the drivers.
pub record Recorder (D : Type 0) : Type 0 where
  pub state : State
  pub ds18_n : ℕ
  pub ds2431_rom : List ℕ
  pub have_ds2431 : Bool
  pub ds2431_n : ℕ
  pub ds2413_n : ℕ
  pub other_n : ℕ
  pub seq_mode : Bool
  pub seq_cur : ℕ
  pub reported : ℕ
  pub temps : List ℤ
  pub temps_ok : List Bool
  pub cycle_no : ℕ
  pub scan_drain : Bool
  pub slots : List Slot
  pub boot_buf : List (List ℕ)
  pub boot_ok : List Bool
  pub boot_step : ℕ
  pub jobs : List Job
  pub job_n : ℕ
  pub job_i : ℕ
  pub verify_buf : List ℕ
  pub write_fails : ℕ
  pub persist_off : Bool
  pub deadline_ms : ℕ
  pub next_ms : ℕ
  pub drain_deadline_ms : ℕ
  pub now : ℕ
  pub drivers : D

abbrev pub slot_peak : ℕ
slot_peak = 0

abbrev pub slot_low : ℕ
slot_low = 1

abbrev pub rec_bytes : ℕ
rec_bytes = 8

abbrev pub rec_addr : ℕ → ℕ
rec_addr slot = get_or (16 ∷ 24 ∷ []) slot 0

abbrev pub rom_addr : ℕ → ℕ
rom_addr slot = get_or (32 ∷ 40 ∷ []) slot 0

abbrev pub boot_addr : ℕ → ℕ
boot_addr k = get_or (16 ∷ 24 ∷ 32 ∷ 40 ∷ []) k 0

abbrev pub magic : ℕ → ℕ
magic slot = if slot == slot_peak then 0x54 else 0x4c

abbrev pub no_slot : Slot
no_slot = record {
  valid = false;
  counter = 0;
  temp = pos 0;
  idx = 0;
  rom_valid = false;
  rom = replicate 8 0;
}

abbrev pub no_job : Job
no_job = record { is_rom = false; slot = 0; addr = 0; image = replicate 8 0 }
