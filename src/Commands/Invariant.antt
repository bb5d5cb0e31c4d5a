-- ===== src/Commands/Invariant.antt =====
-- Who uses the bus in the command demonstration, examples/5_commands/main.c.
use stm32_async_1wire.Prelude.{
  ℕ, Bool, true, false, not, List, none, ltb, if◌then◌else◌, ◌≡◌, refl, sym, ap, ◌∙◌, arith,
  Bool-cases, inl, inr,
}
use mathlib.Core.Path.{subst}
use stm32_async_1wire.Port.{Port}
use stm32_async_1wire.Console.{Ring}
use stm32_async_1wire.OneWire.{search_poll}
use stm32_async_1wire.OneWire.Frame.{search_finished}
use stm32_async_1wire.Ds18b20.Context.{World, is_idle, init, select}
use stm32_async_1wire.Ds18b20.Search.{device_search_poll, device_rom, device_count}
use stm32_async_1wire.Ds18b20.Calls.{hardware}
use stm32_async_1wire.Ds18b20.Measure.{poll}
use stm32_async_1wire.Commands.{
  Demo, put_world, power, is_measure, next_step, start_step, poll_step, poll_measure, request,
  is_over, searched, commanded, react, round, boot,
}
use stm32_async_1wire.Commands.Turns.{
  Turn, IsTurn, nobody, search, measurement, any_turn, poll-IsTurn, start_measure-IsTurn,
  search_poll-IsTurn, search_start-IsTurn, select-IsTurn, search_ended, hardware-IsTurn,
  init-IsTurn,
}
use stm32_async_1wire.Commands.Steps.{
  step_turn, start_step-IsTurn, poll_step-IsStepPoll, finish_kept, IsSameBranch, start_step_branch,
  poll_step_branch, show_branch,
}

-- The activity that the loop waits for.
abbrev pub turn_of : Demo → Turn
turn_of d =
    if d.search_running
    then search
    else if is_measure d.step
    then measurement
    else if d.cmd_running
    then step_turn d.step
    else nobody

-- No other activity uses the bus than the one that the loop waits for.
abbrev pub IsOrdered : Demo → Type 0
IsOrdered d = IsTurn (turn_of d) d.world

-- Behind a finished command: the next one, or the measurement.
commanded-IsOrdered :
    (now : ℕ) (d : Demo)
    → d.search_running ≡ false
    → IsTurn nobody d.world
    → IsOrdered (commanded now d)
unfolding commanded request
commanded-IsOrdered now d r v =
    rw (finish_kept d.step (record d { cmd_running = false }))
      (elim (Bool-cases (is_measure (next_step d.step))) [
        | inl e ↦ rw (e, r) (rw e (start_measure-IsTurn d.world (any_turn measurement d.world v)))
        | inr e ↦ rw (e, r) (rw e v)
      ])

searched-IsOrdered : (d : Demo) → IsTurn nobody d.world → IsOrdered (searched d)
unfolding searched start_step
searched-IsOrdered d v = elim (Bool-cases (ltb 0 (device_count d.world))) [
  | inl e ↦ rw e (
      start_step-IsTurn power (put_world d (select d.world (device_rom d.world 0)))
        (select-IsTurn d.world (device_rom d.world 0) v))
  | inr e ↦ rw e (any_turn measurement d.world v)
]

poll_measure_branch :
    (now : ℕ) (d : Demo)
    → IsSameBranch d (poll_measure now d) × ((poll_measure now d).world ≡ poll d.world)
unfolding poll_measure
poll_measure_branch now d =
    let k = show_branch now (put_world d (poll d.world)) _ in (ground (arith, k), k.1)

ordered : {t : Turn} (d : Demo) → turn_of d ≡ t → IsTurn t d.world → IsOrdered d
ordered d e v = subst (λ (t : Turn). IsTurn t d.world) (sym e) v

flipped : (b : Bool) → not b ≡ true → b ≡ false
flipped b h = ground arith

kept_true : (b : Bool) → not b ≡ false → b ≡ true
kept_true b h = ground arith

pub in_turn : {t : Turn} (d : Demo) → turn_of d ≡ t → IsOrdered d → IsTurn t d.world
in_turn d e v = subst (λ (t : Turn). IsTurn t d.world) e v

measuring :
    (d : Demo) → d.search_running ≡ false → is_measure d.step ≡ true → turn_of d ≡ measurement
measuring d r m = rw (r, m) refl

commanding :
    (d : Demo)
    → d.search_running ≡ false
    → is_measure d.step ≡ false
    → d.cmd_running ≡ true
    → turn_of d ≡ step_turn d.step
commanding d r m c = rw (r, m, c) refl

pub between :
    (d : Demo)
    → d.search_running ≡ false
    → is_measure d.step ≡ false
    → d.cmd_running ≡ false
    → turn_of d ≡ nobody
between d r m c = rw (r, m, c) refl

pub searching : (d : Demo) → d.search_running ≡ true → turn_of d ≡ search
searching d r = rw r refl

if-IsOrdered :
    (b : Bool) (d1 d2 : Demo)
    → (b ≡ true → IsOrdered d1)
    → (b ≡ false → IsOrdered d2)
    → IsOrdered (if b then d1 else d2)
if-IsOrdered true d1 d2 v1 v2 = v1 refl
if-IsOrdered false d1 d2 v1 v2 = v2 refl

measured-IsOrdered :
    (now : ℕ) (d : Demo)
    → d.search_running ≡ false
    → is_measure d.step ≡ true
    → IsTurn measurement d.world
    → let d' = poll_measure now d in IsOrdered (if is_over now d' then request now d' else d')
unfolding request
measured-IsOrdered now d r m v =
    let d' = poll_measure now d in
    let k = poll_measure_branch now d in
    let b = k.0 in
    let v' : IsTurn measurement d'.world = rw (k.1) (poll-IsTurn d.world v) in
    let t = measuring d' (b.same_search ∙ r) (ap is_measure b.same_step ∙ m) in
    if-IsOrdered (is_over now d') (request now d') d'
      (λ o. ordered (request now d') t (start_measure-IsTurn d'.world v')) (λ o. ordered d' t v')

started-IsOrdered :
    (d : Demo)
    → d.search_running ≡ false
    → is_measure d.step ≡ false
    → IsTurn nobody d.world
    → IsOrdered (record (start_step d.step d) { cmd_running = true })
started-IsOrdered d r m v =
    let b = start_step_branch d.step d in
    let d' : Demo = record (start_step d.step d) { cmd_running = true } in
    ordered d'
      (commanding d' (b.same_search ∙ r) (ap is_measure b.same_step ∙ m) refl
        ∙ ap step_turn b.same_step)
      (start_step-IsTurn d.step d v)

polled-IsOrdered :
    (now : ℕ) (d : Demo)
    → d.search_running ≡ false
    → is_measure d.step ≡ false
    → d.cmd_running ≡ true
    → IsTurn (step_turn d.step) d.world
    → let (d', is_done) = poll_step d.step d in IsOrdered (if is_done then commanded now d' else d')
polled-IsOrdered now d r m c v =
    let p = poll_step-IsStepPoll d.step d m v in
    let b = poll_step_branch d.step d in
    let d' = (poll_step d.step d).0 in
    let r' = b.same_search ∙ r in
    if-IsOrdered (poll_step d.step d).1 (commanded now d') d'
      (λ e. commanded-IsOrdered now d' r' (p.1 e))
      (λ e.
        ordered d'
          (commanding d' r' (ap is_measure b.same_step ∙ m) (b.same_cmd ∙ c)
            ∙ ap step_turn b.same_step)
          p.0)

found-IsOrdered :
    (d : Demo)
    → d.search_running ≡ true
    → IsTurn search d.world
    → let (w, is_done) = search_poll d.world in
      IsOrdered (if is_done then searched (put_world d w) else put_world d w)
found-IsOrdered d r v =
    let t = search_poll-IsTurn d.world v in
    let d' = put_world d (search_poll d.world).0 in
    if-IsOrdered (search_poll d.world).1 (searched d') d'
      (λ e. searched-IsOrdered d' (search_ended _ t (search_finished d.world e)))
      (λ e. ordered d' (searching d' r) t)

react-IsOrdered : (now : ℕ) (d : Demo) → IsOrdered d → IsOrdered (react now d)
unfolding react device_search_poll
react-IsOrdered now d v =
    if-IsOrdered d.search_running _ _ (λ r. found-IsOrdered d r (in_turn d (searching d r) v))
      (λ r.
        if-IsOrdered (is_measure d.step) _ _
          (λ m. measured-IsOrdered now d r m (in_turn d (measuring d r m) v))
          (λ m.
            if-IsOrdered (not d.cmd_running) _ _
              (λ c. started-IsOrdered d r m (in_turn d (between d r m (flipped d.cmd_running c)) v))
              (λ c.
                let c' = kept_true d.cmd_running c in
                polled-IsOrdered now d r m c' (in_turn d (commanding d r m c') v))))

round-IsOrdered : (now : ℕ) (d : Demo) → IsOrdered d → IsOrdered (round now d)
unfolding round
round-IsOrdered now d v = react-IsOrdered now d v

-- The demonstration starts so, from the statics at reset.
pub boot-IsOrdered :
    (mhz : ℕ) (w : World) (r : Ring)
    → is_idle w.owner.ctx.current_state ≡ true
    → w.search.sink ≡ none
    → IsOrdered (boot mhz w r)
unfolding boot
boot-IsOrdered mhz w r i n = search_start-IsTurn (init mhz w) _ 8 (init-IsTurn mhz w i n)

-- Rounds of the loop from a start on, with any events of the hardware between them.
pub data Reach (start : Demo) : Demo → Type 0 where
  here : Reach start start
  passed : (now : ℕ) {d : Demo} → Reach start d → Reach start (round now d)
  elapsed :
      (port : Port) (pair triple storage : List ℕ) {d : Demo}
      → Reach start d
      → Reach start (put_world d (hardware port pair triple storage d.world))

-- From a start in which no other activity uses the bus than the one that the loop waits for, this stays so
-- through all rounds and events: a search while the demonstration searches, a transaction while a command runs,
-- a measurement behind the last command, and none between two commands.
pub Reach-IsOrdered : {start d : Demo} → IsOrdered start → Reach start d → IsOrdered d
Reach-IsOrdered v here = v
Reach-IsOrdered v (passed now run) = round-IsOrdered now _ (Reach-IsOrdered v run)
Reach-IsOrdered v (elapsed port pair triple storage run) =
    hardware-IsTurn _ port pair triple storage _ (Reach-IsOrdered v run)
