-- ===== src/Eeprom/Accepted.antt =====
-- The commands that the EEPROM demonstration hands to the driver: `start_step` of examples/8_ds2431/main.c, down
-- to the guard of src/ds2431_txn.c.
use stm32_async_1wire.Prelude.{ℕ, false, List, [], get_or, ◌≡◌, sym, ap, ◌∙◌, arith}
use mathlib.Core.Path.{subst}
use stm32_async_1wire.Ds2431.Context.{World, reset}
use stm32_async_1wire.Eeprom.{Demo, is_done, start_step, react, round}
use stm32_async_1wire.Eeprom.Turns.{IsSelected}
use stm32_async_1wire.Eeprom.Steps.{opcode, needs_write, start_step-IsStarted}
use stm32_async_1wire.Eeprom.Order.{IsInService, free_of}
use stm32_async_1wire.Eeprom.Invariant.{Reach, Reach-IsInService}

-- An operation with this function code has begun with its reset, on the device with this ROM.
pub record IsBegun (command : ℕ) (rom : List ℕ) (w : World) : Type 0 where
  pub running : w.owner.finished ≡ false
  pub in_reset : w.owner.phase ≡ reset
  pub command_is : w.owner.command ≡ command
  pub target : IsSelected rom w

begins :
    (d : Demo)
    → d.search_running ≡ false
    → is_done d.step ≡ false
    → d.cmd_running ≡ false
    → (now : ℕ) → (react now d).world ≡ (start_step d.step d).world
unfolding react
begins d r e c now = ground (arith, r, e, c)

-- Whenever a demonstration that started in order is between two steps of a device, its next round starts the
-- next one, and the driver takes it, with its function code and for the device being served: the guards of the
-- driver reject none of the sequence.
pub round-IsBegun :
    (now : ℕ) (start d : Demo)
    → IsInService start
    → Reach start d
    → d.search_running ≡ false
    → is_done d.step ≡ false
    → d.cmd_running ≡ false
    → IsBegun (opcode d.step) (get_or d.found_roms d.dev_idx []) (round now d).world
unfolding round
round-IsBegun now start d o run r e c =
    let v = (Reach-IsInService o run).serves r e in
    let s =
      (start_step-IsStarted d.step d v.step_is
        (λ h. v.serving.latched (ap (needs_write d.step) c ∙ h)) (free_of c v.turn)).0 in
    subst (IsBegun (opcode d.step) (get_or d.found_roms d.dev_idx [])) (sym (begins d r e c now))
      (record {
        running = s.running;
        in_reset = s.in_reset;
        command_is = s.command_is;
        target = record {
          addressed = s.mode_same ∙ v.serving.selected.addressed;
          rom_is = s.rom_same ∙ v.serving.selected.rom_is;
        };
      })
