-- ===== src/Eeprom/Kept.antt =====
-- What the calls of the EEPROM demonstration do to the DS2431 driver and leave alone of it: src/ds2431.c and
-- src/ds2431_txn.c.
use stm32_async_1wire.Prelude.{ℕ, Bool, true, false, List, some, ◌≡◌, refl, arith}
use stm32_async_1wire.OneWire.{
  op_done, reset_bus, write_slots, read_data, strong_pullup, start_wait, search_active,
}
use stm32_async_1wire.Ds2431.Context.{Phase, World, reset, cmd, read, wait, done, idle, is_parked}
use stm32_async_1wire.Ds2431.Txn.{
  start, can_start, poll, poll_phase, poll_switch, send_command, after_command, take_answer,
  parasite_pullup, build,
}
use stm32_async_1wire.Ds2431.Memory.{
  read_memory, read_memory_poll, write_scratchpad, read_scratchpad, read_scratchpad_poll,
  copy_scratchpad, latch, out_of_range,
}

-- The device that the driver addresses is the same, and so are the search and the latched write.
pub record IsSameTarget (w w' : World) : Type 0 where
  pub search_kept : w'.search ≡ w.search
  pub mode_kept : w'.owner.address_mode ≡ w.owner.address_mode
  pub rom_kept : w'.owner.selected_rom ≡ w.owner.selected_rom
  pub pending_kept : w'.owner.pending ≡ w.owner.pending

-- A finished operation has left its phases.
abbrev pub IsSettled : World → Type 0
IsSettled w = w.owner.finished ≡ true → is_parked w.owner.phase ≡ true

phase_kept : (phase : Phase) (w : World) → IsSameTarget w (poll_phase phase w).0
unfolding poll_phase poll_switch send_command after_command take_answer parasite_pullup op_done
    write_slots read_data strong_pullup start_wait build
phase_kept reset w = ground arith
phase_kept cmd w = ground arith
phase_kept read w = ground arith
phase_kept wait w = ground arith
phase_kept done w = ground arith
phase_kept idle w = ground arith

phase_ends :
    (phase : Phase) (w : World)
    → (poll_phase phase w).1 ≡ true
    → (poll_phase phase w).0.owner.finished ≡ true
unfolding poll_phase
phase_ends reset w h = ground arith
phase_ends cmd w h = ground arith
phase_ends read w h = ground arith
phase_ends wait w h = ground arith
phase_ends done w h = refl
phase_ends idle w h = ground arith

phase_settles :
    (phase : Phase) (w : World)
    → w.owner.phase ≡ phase
    → w.owner.finished ≡ false
    → IsSettled (poll_phase phase w).0
unfolding poll_phase poll_switch send_command after_command take_answer parasite_pullup op_done
    write_slots read_data strong_pullup start_wait build
phase_settles reset w e f h = ground arith
phase_settles cmd w e f h = ground arith
phase_settles read w e f h = ground arith
phase_settles wait w e f h = ground arith
phase_settles done w e f h = ground arith
phase_settles idle w e f h = ground arith

-- A poll of an operation: what it leaves alone, that an answer of 1 finds the operation finished, and that a
-- finished operation has left its phases.
pub record IsPolled (w : World) (polled : World × Bool) : Type 0 where
  pub kept : IsSameTarget w polled.0
  pub finishes : polled.1 ≡ true → polled.0.owner.finished ≡ true
  pub settles : IsSettled w → IsSettled polled.0

pub poll-IsPolled : (w : World) → IsPolled w (poll w)
unfolding poll
poll-IsPolled w =
    let k = phase_kept w.owner.phase w in
    let e = phase_ends w.owner.phase w in
    let s = phase_settles w.owner.phase w refl in
    record {
      kept = ground (arith, k);
      finishes = λ h. ground (arith, e);
      settles = λ v h. ground (arith, s, v);
    }

pub read_memory-IsPolled : (w : World) → IsPolled w (read_memory_poll w)
unfolding read_memory_poll
read_memory-IsPolled w =
    let p = poll-IsPolled w in
    record {
      kept = ground (arith, p.kept);
      finishes = λ h. ground (arith, p.finishes);
      settles = λ v h. ground (arith, p.settles v);
    }

pub read_scratchpad-IsPolled : (w : World) → IsPolled w (read_scratchpad_poll w)
unfolding read_scratchpad_poll
read_scratchpad-IsPolled w =
    let p = poll-IsPolled w in
    record {
      kept = ground (arith, p.kept);
      finishes = λ h. ground (arith, p.finishes);
      settles = λ v h. ground (arith, p.settles v);
    }

-- The driver has taken an operation: it runs, with its function code, and addresses the device as before.
pub record IsStarted (command : ℕ) (w w' : World) : Type 0 where
  pub running : w'.owner.finished ≡ false
  pub in_reset : w'.owner.phase ≡ reset
  pub command_is : w'.owner.command ≡ command
  pub search_same : w'.search ≡ w.search
  pub mode_same : w'.owner.address_mode ≡ w.owner.address_mode
  pub rom_same : w'.owner.selected_rom ≡ w.owner.selected_rom

pub read_memory-IsStarted :
    (w : World) (dst : List ℕ)
    → can_start w ≡ true
    → let w' = read_memory w (some dst) 0 8 in
      IsStarted 0xf0 w w' × (w'.owner.pending ≡ w.owner.pending)
unfolding read_memory out_of_range start can_start strong_pullup reset_bus search_active
read_memory-IsStarted w dst h = ground arith

pub write_scratchpad-IsStarted :
    (w : World) (row : List ℕ)
    → can_start w ≡ true
    → let w' = (write_scratchpad w 0 (some row) 8).0 in
      IsStarted 0x0f w w' × (w'.owner.pending ≡ true)
unfolding write_scratchpad out_of_range start can_start strong_pullup reset_bus search_active latch
write_scratchpad-IsStarted w row h = ground arith

pub read_scratchpad-IsStarted :
    (w : World) (buf : List ℕ)
    → can_start w ≡ true
    → let w' = read_scratchpad w (some buf) in
      IsStarted 0xaa w w' × (w'.owner.pending ≡ w.owner.pending)
unfolding read_scratchpad start can_start strong_pullup reset_bus search_active
read_scratchpad-IsStarted w buf h = ground arith

pub copy_scratchpad-IsStarted :
    (w : World)
    → can_start w ≡ true
    → w.owner.pending ≡ true
    → let w' = copy_scratchpad w in IsStarted 0x55 w w' × (w'.owner.pending ≡ w.owner.pending)
unfolding copy_scratchpad start can_start strong_pullup reset_bus search_active
copy_scratchpad-IsStarted w h p = ground arith
