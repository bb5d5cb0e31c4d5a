-- ===== src/Eeprom/Steps.antt =====
-- One step of the EEPROM demonstration, examples/8_ds2431/main.c: `start_step`, `poll_step` and `finish_step`.
use stm32_async_1wire.Prelude.{ℕ, ◌<◌, Bool, true, false, [], get_or, length, ◌≡◌, refl, ◌∙◌, arith}
use stm32_async_1wire.OneWire.{search_poll}
use stm32_async_1wire.Eeprom.{
  Demo, Step, search, read_baseline, write_scratchpad, read_scratchpad, copy_scratchpad, read_back,
  done, start_step, poll_step, poll_memory, poll_command, finish_step, use_result, print_bytes,
  poll_search, found_sink,
}
use stm32_async_1wire.Eeprom.Kept.{
  IsPolled, IsStarted, poll-IsPolled, read_memory-IsPolled, read_scratchpad-IsPolled,
  read_memory-IsStarted, write_scratchpad-IsStarted, read_scratchpad-IsStarted,
  copy_scratchpad-IsStarted,
}
use stm32_async_1wire.Eeprom.Turns.{IsTurn, nobody, startable, IsSelected}

-- A step that runs a command of the driver.
abbrev pub is_command : Step → Bool
is_command search = false
is_command done = false
is_command _ = true

-- Whether the row has been written to the scratchpad in a step that may run.
abbrev pub needs_write : Step → Bool → Bool
needs_write write_scratchpad running = running
needs_write read_scratchpad running = true
needs_write copy_scratchpad running = true
needs_write _ running = false

-- The function code of a step's operation.
abbrev pub opcode : Step → ℕ
opcode read_baseline = 0xf0
opcode write_scratchpad = 0x0f
opcode read_scratchpad = 0xaa
opcode copy_scratchpad = 0x55
opcode read_back = 0xf0
opcode search = 0
opcode done = 0

-- The device being served is one of those found, the driver addresses it, and where the step needs it the
-- driver has a write latched.
pub record IsServing (d : Demo) : Type 0 where
  pub listed : d.dev_idx < length d.found_roms
  pub selected : IsSelected (get_or d.found_roms d.dev_idx []) d.world
  pub latched : needs_write d.step d.cmd_running ≡ true → d.world.owner.pending ≡ true

-- The driver takes the step's command.
pub start_step-IsStarted :
    (s : Step) (d : Demo)
    → is_command s ≡ true
    → (needs_write s false ≡ true → d.world.owner.pending ≡ true)
    → IsTurn nobody d.world
    → IsStarted (opcode s) d.world (start_step s d).world
      × (needs_write s true ≡ true → (start_step s d).world.owner.pending ≡ true)
unfolding start_step print_bytes
start_step-IsStarted read_baseline d c p v =
    ((read_memory-IsStarted d.world d.eeprom_data (startable d.world v)).0, λ h. cc)
start_step-IsStarted read_back d c p v =
    ((read_memory-IsStarted d.world d.eeprom_data (startable d.world v)).0, λ h. cc)
start_step-IsStarted write_scratchpad d c p v =
    let s = write_scratchpad-IsStarted d.world d.write_data (startable d.world v) in (s.0, λ h. s.1)
start_step-IsStarted read_scratchpad d c p v =
    let s = read_scratchpad-IsStarted d.world d.frame (startable d.world v) in
    (s.0, λ h. s.1 ∙ p refl)
start_step-IsStarted copy_scratchpad d c p v =
    let s = copy_scratchpad-IsStarted d.world (startable d.world v) (p refl) in
    (s.0, λ h. s.1 ∙ p refl)
start_step-IsStarted search d c p v = cc
start_step-IsStarted done d c p v = cc

pub poll_step-IsPolled :
    (s : Step) (d : Demo)
    → is_command s ≡ true
    → IsPolled d.world ((poll_step s d).0.world, (poll_step s d).1)
unfolding poll_step poll_memory poll_command
poll_step-IsPolled read_baseline d c = read_memory-IsPolled d.world
poll_step-IsPolled read_back d c = read_memory-IsPolled d.world
poll_step-IsPolled write_scratchpad d c = poll-IsPolled d.world
poll_step-IsPolled read_scratchpad d c = read_scratchpad-IsPolled d.world
poll_step-IsPolled copy_scratchpad d c = poll-IsPolled d.world
poll_step-IsPolled search d c = cc
poll_step-IsPolled done d c = cc

-- The fields by which the loop branches and chooses a device.
pub record IsSameBranch (d d' : Demo) : Type 0 where
  pub same_search : d'.search_running ≡ d.search_running
  pub same_step : d'.step ≡ d.step
  pub same_cmd : d'.cmd_running ≡ d.cmd_running
  pub same_done : d'.demo_done ≡ d.demo_done
  pub same_roms : d'.found_roms ≡ d.found_roms
  pub same_idx : d'.dev_idx ≡ d.dev_idx

pub start_branch : (s : Step) (d : Demo) → IsSameBranch d (start_step s d)
unfolding start_step print_bytes
start_branch read_baseline d = ground arith
start_branch write_scratchpad d = ground arith
start_branch read_scratchpad d = ground arith
start_branch copy_scratchpad d = ground arith
start_branch read_back d = ground arith
start_branch search d = ground arith
start_branch done d = ground arith

pub poll_branch : (s : Step) (d : Demo) → IsSameBranch d (poll_step s d).0
unfolding poll_step poll_memory poll_command
poll_branch read_baseline d = ground arith
poll_branch write_scratchpad d = ground arith
poll_branch read_scratchpad d = ground arith
poll_branch copy_scratchpad d = ground arith
poll_branch read_back d = ground arith
poll_branch search d = ground arith
poll_branch done d = ground arith

use_branch :
    (s : Step) (d : Demo) → IsSameBranch d (use_result s d) × ((use_result s d).world ≡ d.world)
unfolding use_result print_bytes
use_branch read_baseline d = ground arith
use_branch write_scratchpad d = ground arith
use_branch read_scratchpad d = ground arith
use_branch copy_scratchpad d = ground arith
use_branch read_back d = ground arith
use_branch search d = ground arith
use_branch done d = ground arith

pub finish_branch :
    (s : Step) (d : Demo) → IsSameBranch d (finish_step s d) × ((finish_step s d).world ≡ d.world)
unfolding finish_step
finish_branch s d = ground (arith, use_branch s d)

-- A poll of the search polls the driver's search once, and may add a ROM.
pub record IsSearchPolled (d : Demo) (polled : Demo × Bool) : Type 0 where
  pub world_is : polled.0.world ≡ (search_poll d.world).0
  pub answer_is : polled.1 ≡ (search_poll d.world).1
  pub search_is : polled.0.search_running ≡ d.search_running
  pub idx_is : polled.0.dev_idx ≡ d.dev_idx
  pub done_is : polled.0.demo_done ≡ d.demo_done

pub poll_search-IsSearchPolled : (d : Demo) → IsSearchPolled d (poll_search d)
unfolding poll_search found_sink print_bytes
poll_search-IsSearchPolled d = ground arith
