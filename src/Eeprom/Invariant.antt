-- ===== src/Eeprom/Invariant.antt =====
-- The order kept by the rounds of the EEPROM demonstration, examples/8_ds2431/main.c.
use stm32_async_1wire.Prelude.{ℕ, Bool, true, false, not, List, none, ◌≡◌, refl, ◌∙◌, arith}
use stm32_async_1wire.Port.{Port}
use stm32_async_1wire.Console.{Ring, poll_tx}
use stm32_async_1wire.OneWire.{call_sink}
use stm32_async_1wire.OneWire
use stm32_async_1wire.Ds2431.Context.{World, init}
use stm32_async_1wire.Eeprom.{Demo, put_world, is_done, react, round, boot}
use stm32_async_1wire.Eeprom.Kept.{IsSameTarget}
use stm32_async_1wire.Eeprom.Turns.{Turn, IsTurn, nobody}
use stm32_async_1wire.Eeprom.Order.{IsInService, if-IsInService, start_search-IsInService}
use stm32_async_1wire.Eeprom.Branches.{
  found-IsInService, rested-IsInService, started-IsInService, polled-IsInService,
}

flipped : (b : Bool) → not b ≡ true → b ≡ false
flipped b h = ground arith

kept_true : (b : Bool) → not b ≡ false → b ≡ true
kept_true b h = ground arith

react-IsInService : (now : ℕ) (d : Demo) → IsInService d → IsInService (react now d)
unfolding react
react-IsInService now d v =
    if-IsInService d.search_running _ _ (λ r. found-IsInService now d r (v.first r) (v.searches r))
      (λ r.
        if-IsInService (is_done d.step) _ _ (λ e. rested-IsInService now d r e (v.rests r e))
          (λ e.
            if-IsInService (not d.cmd_running) _ _
              (λ c. started-IsInService d r e (flipped d.cmd_running c) (v.serves r e))
              (λ c. polled-IsInService now d r e (kept_true d.cmd_running c) (v.serves r e))))

-- The driver has stayed as it was, but for its buffers.
record IsSameDriver (w w' : World) : Type 0 where
  target : IsSameTarget w w'
  phase_same : w'.owner.phase ≡ w.owner.phase
  finished_same : w'.owner.finished ≡ w.owner.finished

same-IsTurn : {t : Turn} (w w' : World) → IsSameDriver w w' → IsTurn t w → IsTurn t w'
same-IsTurn w w' s v = record {
  no_search = rw s.target.search_kept v.no_search;
  no_command = rw s.phase_same v.no_command;
  settled = rw (s.phase_same, s.finished_same) v.settled;
  sink_keeps = rw s.target.search_kept v.sink_keeps;
}

same-IsInService :
    (r : Ring) (w : World) (d : Demo)
    → IsSameDriver d.world w
    → IsInService d
    → IsInService (record d { ring = r; world = w })
same-IsInService r w d s v = record {
  searches = λ q. same-IsTurn d.world w s (v.searches q);
  first = v.first;
  rests = λ q e. same-IsTurn d.world w s (v.rests q e);
  serves = λ q e.
      let c = v.serves q e in
      record {
        step_is = c.step_is;
        serving = record {
          listed = c.serving.listed;
          selected = record {
            addressed = s.target.mode_kept ∙ c.serving.selected.addressed;
            rom_is = s.target.rom_kept ∙ c.serving.selected.rom_is;
          };
          latched = λ h. s.target.pending_kept ∙ c.serving.latched h;
        };
        turn = same-IsTurn d.world w s c.turn;
      };
}

unchanged : (w : World) → IsSameDriver w w
unchanged w = record {
  target = record { search_kept = refl; mode_kept = refl; rom_kept = refl; pending_kept = refl };
  phase_same = refl;
  finished_same = refl;
}

round-IsInService : (now : ℕ) (d : Demo) → IsInService d → IsInService (round now d)
unfolding round
round-IsInService now d v =
    let d' = react now d in
    same-IsInService (poll_tx d'.ring) d'.world d' (unchanged d'.world) (react-IsInService now d v)

-- The hardware between two rounds: any registers, any contents of the capture buffers.
unfoldable pub hardware : Port → List ℕ → List ℕ → List ℕ → World → World
hardware port pair triple u w = record w {
  port = port;
  pair_pulse = pair;
  pulse3 = triple;
  owner = record (w.owner) { u = u };
}

-- Rounds of the loop from a start on, with any events of the hardware between them.
pub data Reach (start : Demo) : Demo → Type 0 where
  here : Reach start start
  passed : (now : ℕ) {d : Demo} → Reach start d → Reach start (round now d)
  elapsed :
      (port : Port) (pair triple u : List ℕ) {d : Demo}
      → Reach start d
      → Reach start (put_world d (hardware port pair triple u d.world))

hardware-IsSameDriver :
    (port : Port) (pair triple u : List ℕ) (w : World)
    → IsSameDriver w (hardware port pair triple u w)
unfolding hardware
hardware-IsSameDriver port pair triple u w = record {
  target = record { search_kept = refl; mode_kept = refl; rom_kept = refl; pending_kept = refl };
  phase_same = refl;
  finished_same = refl;
}

init-IsTurn : (mhz : ℕ) (w : World) → w.search.sink ≡ none → IsTurn nobody (init mhz w)
unfolding init OneWire.init call_sink
init-IsTurn mhz w n = record {
  no_search = λ h. refl;
  no_command = λ h. refl;
  settled = λ h. refl;
  sink_keeps = λ rom c. rw n refl;
}

-- The demonstration starts so, from the statics at reset.
pub boot-IsInService :
    (mhz : ℕ) (w : World) (r : Ring) → w.search.sink ≡ none → IsInService (boot mhz w r)
unfolding boot
boot-IsInService mhz w r n = start_search-IsInService _ (init-IsTurn mhz w n)

-- From a start in which nothing but the activity that the loop waits for uses the bus, this stays so through
-- all rounds and events: the search while it runs, nothing while the demonstration rests, and otherwise an
-- operation on the device being served, which is in the list of those found, and whose ROM the driver
-- addresses; and a scratchpad is read and copied only behind a write that the driver has latched.
pub Reach-IsInService : {start d : Demo} → IsInService start → Reach start d → IsInService d
Reach-IsInService v here = v
Reach-IsInService v (passed now run) = round-IsInService now _ (Reach-IsInService v run)
Reach-IsInService v (elapsed port pair triple u {d} run) =
    same-IsInService d.ring _ d (hardware-IsSameDriver port pair triple u d.world)
      (Reach-IsInService v run)
