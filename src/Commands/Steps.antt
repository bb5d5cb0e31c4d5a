-- ===== src/Commands/Steps.antt =====
-- One command of the demonstration, examples/5_commands/main.c: `start_step`, `poll_step` and
-- `finish_step`.
use stm32_async_1wire.Prelude.{
  ℕ, Bool, true, false, not, List, [], ◌∷◌, ◌≡◌, refl, arith, Bool-cases, inl, inr,
}
use stm32_async_1wire.Prelude.Int.{ℤ}
use stm32_async_1wire.OneWire.Frame.{search_finished}
use stm32_async_1wire.Ds18b20.Context.{World}
use stm32_async_1wire.Ds18b20.Txn.{
  last_command_ok, start_read_rom, set_alarm_thresholds, start_read_scratchpad,
  start_copy_scratchpad, start_recall_eeprom, detect_parasite,
}
use stm32_async_1wire.Ds18b20.Search.{device_search_poll}
use stm32_async_1wire.Commands.{
  Demo, Step, power, baseline, set_alarm, after_set, copy, set_again, after_second, recall,
  after_recall, get_rom, set_force, alarm_search, measure, is_measure, start_step, poll_step,
  poll_scratchpad, poll_command, finish_step, print_result, print_scratchpad, print_thresholds,
  show_result, show_results,
}
use stm32_async_1wire.Commands.Kept.{
  txn-IsCommandPoll, rom-IsCommandPoll, scratchpad-IsCommandPoll, parasite-IsCommandPoll,
  IsCommandPoll,
}
use stm32_async_1wire.Commands.Turns.{
  Turn, IsTurn, nobody, search, transaction, measurement, any_turn, txn_start-IsTurn,
  search_poll-IsTurn, command-IsTurn, alarm_search_start-IsTurn, search_ended, txn_ended,
}

-- The activity of a running step.
abbrev pub step_turn : Step → Turn
step_turn alarm_search = search
step_turn measure = measurement
step_turn _ = transaction

pub start_step-IsTurn :
    (s : Step) (d : Demo) → IsTurn nobody d.world → IsTurn (step_turn s) (start_step s d).world
unfolding start_step print_thresholds detect_parasite start_read_scratchpad set_alarm_thresholds
    start_copy_scratchpad start_recall_eeprom start_read_rom
start_step-IsTurn power d v = txn_start-IsTurn d.world _ _ _ _ _ _ _ v
start_step-IsTurn baseline d v = txn_start-IsTurn d.world _ _ _ _ _ _ _ v
start_step-IsTurn set_alarm d v = txn_start-IsTurn d.world _ _ _ _ _ _ _ v
start_step-IsTurn after_set d v = txn_start-IsTurn d.world _ _ _ _ _ _ _ v
start_step-IsTurn copy d v = txn_start-IsTurn d.world _ _ _ _ _ _ _ v
start_step-IsTurn set_again d v = txn_start-IsTurn d.world _ _ _ _ _ _ _ v
start_step-IsTurn after_second d v = txn_start-IsTurn d.world _ _ _ _ _ _ _ v
start_step-IsTurn recall d v = txn_start-IsTurn d.world _ _ _ _ _ _ _ v
start_step-IsTurn after_recall d v = txn_start-IsTurn d.world _ _ _ _ _ _ _ v
start_step-IsTurn get_rom d v = txn_start-IsTurn d.world _ _ _ _ _ _ _ v
start_step-IsTurn set_force d v = txn_start-IsTurn d.world _ _ _ _ _ _ _ v
start_step-IsTurn alarm_search d v = alarm_search_start-IsTurn d.world _ _ v
start_step-IsTurn measure d v = any_turn measurement d.world v

-- A poll of a step keeps the turn, and ends it with an answer of 1.
abbrev pub IsStepPoll : Step → Demo × Bool → Type 0
IsStepPoll s polled =
    IsTurn (step_turn s) polled.0.world × (polled.1 ≡ true → IsTurn nobody polled.0.world)

transacted :
    (w : World) (polled : World × Bool)
    → IsTurn transaction w
    → IsCommandPoll w polled
    → IsTurn transaction polled.0 × (polled.1 ≡ true → IsTurn nobody polled.0)
transacted w polled v p =
    let t = command-IsTurn w polled p v in (t, λ h. txn_ended polled.0 t (p.finishes h))

pub poll_step-IsStepPoll :
    (s : Step) (d : Demo)
    → is_measure s ≡ false
    → IsTurn (step_turn s) d.world
    → IsStepPoll s (poll_step s d)
unfolding poll_step poll_scratchpad poll_command device_search_poll
poll_step-IsStepPoll power d m v = transacted d.world _ v (parasite-IsCommandPoll d.world)
poll_step-IsStepPoll get_rom d m v = transacted d.world _ v (rom-IsCommandPoll d.world)
poll_step-IsStepPoll baseline d m v = transacted d.world _ v (scratchpad-IsCommandPoll d.world)
poll_step-IsStepPoll after_set d m v = transacted d.world _ v (scratchpad-IsCommandPoll d.world)
poll_step-IsStepPoll after_second d m v = transacted d.world _ v (scratchpad-IsCommandPoll d.world)
poll_step-IsStepPoll after_recall d m v = transacted d.world _ v (scratchpad-IsCommandPoll d.world)
poll_step-IsStepPoll set_alarm d m v = transacted d.world _ v (txn-IsCommandPoll d.world)
poll_step-IsStepPoll copy d m v = transacted d.world _ v (txn-IsCommandPoll d.world)
poll_step-IsStepPoll set_again d m v = transacted d.world _ v (txn-IsCommandPoll d.world)
poll_step-IsStepPoll recall d m v = transacted d.world _ v (txn-IsCommandPoll d.world)
poll_step-IsStepPoll set_force d m v = transacted d.world _ v (txn-IsCommandPoll d.world)
poll_step-IsStepPoll alarm_search d m v =
    let t = search_poll-IsTurn d.world v in (t, λ h. search_ended _ t (search_finished d.world h))
poll_step-IsStepPoll measure d m v = cc

-- Printing touches only the ring.
print_kept : (s : Step) (d : Demo) → print_result s d ≡ record d { ring = (print_result s d).ring }
unfolding print_result print_scratchpad
print_kept power d = refl
print_kept copy d = refl
print_kept recall d = refl
print_kept get_rom d = refl
print_kept alarm_search d = refl
print_kept baseline d = refl
print_kept after_set d = refl
print_kept after_second d = refl
print_kept after_recall d = refl
print_kept set_alarm d = refl
print_kept set_again d = refl
print_kept set_force d = refl
print_kept measure d = refl

pub finish_kept :
    (s : Step) (d : Demo) → finish_step s d ≡ record d { ring = (finish_step s d).ring }
unfolding finish_step
finish_kept s d = elim (Bool-cases (not (last_command_ok d.world))) [
  | inl e ↦ rw e refl
  | inr e ↦ rw e (print_kept s d)
]

result_kept :
    (now : ℕ) (d : Demo) (t : ℤ)
    → show_result now d t ≡ record d {
      ring = (show_result now d t).ring;
      pause_end_ms = (show_result now d t).pause_end_ms;
    }
unfolding show_result
result_kept now d t = ground arith

-- The fields by which the loop branches.
pub record IsSameBranch (d d' : Demo) : Type 0 where
  pub same_search : d'.search_running ≡ d.search_running
  pub same_step : d'.step ≡ d.step
  pub same_cmd : d'.cmd_running ≡ d.cmd_running

pub start_step_branch : (s : Step) (d : Demo) → IsSameBranch d (start_step s d)
unfolding start_step print_thresholds
start_step_branch power d = ground arith
start_step_branch baseline d = ground arith
start_step_branch set_alarm d = ground arith
start_step_branch after_set d = ground arith
start_step_branch copy d = ground arith
start_step_branch set_again d = ground arith
start_step_branch after_second d = ground arith
start_step_branch recall d = ground arith
start_step_branch after_recall d = ground arith
start_step_branch get_rom d = ground arith
start_step_branch set_force d = ground arith
start_step_branch alarm_search d = ground arith
start_step_branch measure d = ground arith

pub poll_step_branch : (s : Step) (d : Demo) → IsSameBranch d (poll_step s d).0
unfolding poll_step poll_scratchpad poll_command
poll_step_branch power d = ground arith
poll_step_branch baseline d = ground arith
poll_step_branch set_alarm d = ground arith
poll_step_branch after_set d = ground arith
poll_step_branch copy d = ground arith
poll_step_branch set_again d = ground arith
poll_step_branch after_second d = ground arith
poll_step_branch recall d = ground arith
poll_step_branch after_recall d = ground arith
poll_step_branch get_rom d = ground arith
poll_step_branch set_force d = ground arith
poll_step_branch alarm_search d = ground arith
poll_step_branch measure d = ground arith

pub show_branch :
    (now : ℕ) (d : Demo) (ts : List ℤ)
    → IsSameBranch d (show_results now d ts) × ((show_results now d ts).world ≡ d.world)
unfolding show_results
show_branch now d [] = ground arith
show_branch now d (t ∷ ts) =
    let k = result_kept now d t in
    let rest = show_branch now (show_result now d t) ts in ground (arith, k, rest)
