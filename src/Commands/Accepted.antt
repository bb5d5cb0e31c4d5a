-- ===== src/Commands/Accepted.antt =====
-- The commands that the demonstration hands to the driver: `start_step` of examples/5_commands/main.c, down to
-- the guards of src/ds18b20_txn.c and src/ds18b20_search.c.
use stm32_async_1wire.Prelude.{ℕ, Bool, true, false, List, Option, ◌≡◌, refl, sym, ap, arith}
use mathlib.Core.Path.{subst}
use stm32_async_1wire.OneWire.{reset_bus, strong_pullup, search_poll}
use stm32_async_1wire.OneWire
use stm32_async_1wire.Ds18b20.Context.{World}
use stm32_async_1wire.Ds18b20.Txn.{
  txn_start, txn_build_pulses, start_read_rom, set_alarm_thresholds, start_read_scratchpad,
  start_copy_scratchpad, start_recall_eeprom, detect_parasite,
}
use stm32_async_1wire.Ds18b20.Search.{alarm_search_start}
use stm32_async_1wire.Commands.{
  Demo, Step, power, baseline, set_alarm, after_set, copy, set_again, after_second, recall,
  after_recall, get_rom, set_force, alarm_search, measure, is_measure, start_step, print_thresholds,
  react, round,
}
use stm32_async_1wire.Commands.Turns.{IsTurn, nobody, can_start, free}
use stm32_async_1wire.Commands.Invariant.{Reach, IsOrdered, Reach-IsOrdered, between, in_turn}

-- The function code of a step's transaction.
abbrev pub opcode : Step → ℕ
opcode power = 0xb4
opcode baseline = 0xbe
opcode set_alarm = 0x4e
opcode after_set = 0xbe
opcode copy = 0x48
opcode set_again = 0x4e
opcode after_second = 0xbe
opcode recall = 0xb8
opcode after_recall = 0xbe
opcode get_rom = 0x33
opcode set_force = 0x4e
opcode alarm_search = 0xec
opcode measure = 0x44

-- The driver has taken the step's command: the search of alarms, or the transaction with its function code.
abbrev pub IsTaken : Step → World → Type 0
IsTaken alarm_search w =
    (w.search.finished ≡ false)
    × (w.search.command ≡ opcode alarm_search)
    × (w.search.family ≡ 0x28)
IsTaken measure w = Unit {0}
IsTaken s w = (w.owner.txn.finished ≡ false) × (w.owner.txn.command ≡ opcode s)

txn_start_taken :
    (w : World) (command : ℕ) (out : Option (List ℕ)) (payload : List ℕ)
    (payload_len read_bytes wait_us : ℕ) (bare : Bool)
    → IsTurn nobody w
    → let w' = txn_start w command out payload payload_len read_bytes wait_us bare in
      (w'.owner.txn.finished ≡ false) × (w'.owner.txn.command ≡ command)
unfolding txn_start txn_build_pulses strong_pullup reset_bus
txn_start_taken w command out payload payload_len read_bytes wait_us bare v =
    rw (can_start w v) (refl, refl)

alarm-IsTaken :
    (w : World) (sink : Option (List ℕ → ℕ))
    → IsTurn nobody w
    → IsTaken alarm_search (alarm_search_start w sink 8)
unfolding alarm_search_start OneWire.search_start reset_bus
alarm-IsTaken w sink v = rw (free w v, v.no_search refl) (refl, refl, refl)

start_step-IsTaken :
    (s : Step) (d : Demo) → IsTurn nobody d.world → IsTaken s (start_step s d).world
unfolding start_step print_thresholds detect_parasite start_read_scratchpad set_alarm_thresholds
    start_copy_scratchpad start_recall_eeprom start_read_rom
start_step-IsTaken power d v = txn_start_taken d.world _ _ _ _ _ _ _ v
start_step-IsTaken baseline d v = txn_start_taken d.world _ _ _ _ _ _ _ v
start_step-IsTaken set_alarm d v = txn_start_taken d.world _ _ _ _ _ _ _ v
start_step-IsTaken after_set d v = txn_start_taken d.world _ _ _ _ _ _ _ v
start_step-IsTaken copy d v = txn_start_taken d.world _ _ _ _ _ _ _ v
start_step-IsTaken set_again d v = txn_start_taken d.world _ _ _ _ _ _ _ v
start_step-IsTaken after_second d v = txn_start_taken d.world _ _ _ _ _ _ _ v
start_step-IsTaken recall d v = txn_start_taken d.world _ _ _ _ _ _ _ v
start_step-IsTaken after_recall d v = txn_start_taken d.world _ _ _ _ _ _ _ v
start_step-IsTaken get_rom d v = txn_start_taken d.world _ _ _ _ _ _ _ v
start_step-IsTaken set_force d v = txn_start_taken d.world _ _ _ _ _ _ _ v
start_step-IsTaken alarm_search d v = alarm-IsTaken d.world _ v
start_step-IsTaken measure d v = tt

-- Whenever a demonstration that started in order is between two commands, its next round starts the next one,
-- and the driver takes it, with its function code: the guards of the driver reject none of the sequence.
pub round-IsTaken :
    (now : ℕ) (start d : Demo)
    → IsOrdered start
    → Reach start d
    → d.search_running ≡ false
    → is_measure d.step ≡ false
    → d.cmd_running ≡ false
    → IsTaken d.step (round now d).world
unfolding round react
round-IsTaken now start d o run r m c =
    let v = in_turn d (between d r m c) (Reach-IsOrdered o run) in
    let t = start_step-IsTaken d.step d v in
    subst (λ (w : World). IsTaken d.step w) (ap (λ (x : Demo). x.world) (sym (begins d r m c))) t
  where
    begins :
        (d : Demo)
        → d.search_running ≡ false
        → is_measure d.step ≡ false
        → d.cmd_running ≡ false
        → react now d ≡ record (start_step d.step d) { cmd_running = true }
    begins d r m c = ground (arith, r, m, c)
