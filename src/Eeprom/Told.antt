-- ===== src/Eeprom/Told.antt =====
-- When the one-shot cycle of the EEPROM demonstration is told to be over, examples/8_ds2431/main.c: `demo_done` is set
-- only at rest, and behind it the loop only searches and rests.
use stm32_async_1wire.Prelude.{
  ℕ, Bool, true, false, not, ◌&&◌, ◌||◌, ◌==◌, if◌then◌else◌, ◌≡◌, refl, ◌∙◌, arith, ◌++◌,
  Bool-cases, inl, inr,
}
use stm32_async_1wire.Console.{codes}
use stm32_async_1wire.Eeprom.{
  Demo, say, crlf, rest, rom_count, is_over, is_done, poll_search, poll_step, select_found,
  print_bytes, start_search, searched, rested, served, commanded, is_read_back, react, round,
}
use stm32_async_1wire.Eeprom.Steps.{
  start_branch, poll_branch, finish_branch, poll_search-IsSearchPolled,
}
use stm32_async_1wire.Eeprom.Order.{IsInService}
use stm32_async_1wire.Eeprom.Invariant.{Reach, here, passed, elapsed, Reach-IsInService}
use stm32_async_1wire.Eeprom.Once.{IsOver, Reach-IsOver}

abbrev IsToldAtRest : Demo → Type 0
IsToldAtRest d = d.demo_done ≡ true → (d.search_running || is_done d.step) ≡ true

if-IsToldAtRest :
    (b : Bool) (d1 d2 : Demo)
    → (b ≡ true → IsToldAtRest d1)
    → (b ≡ false → IsToldAtRest d2)
    → IsToldAtRest (if b then d1 else d2)
if-IsToldAtRest true d1 d2 v1 v2 = v1 refl
if-IsToldAtRest false d1 d2 v1 v2 = v2 refl

either : (a b : Bool) → b ≡ true → (a || b) ≡ true
either a b h = ground arith

untold : (a b : Bool) → not a && b ≡ true → a ≡ false
untold a b h = ground arith

vacuous : {b c : Bool} → b ≡ false → b ≡ true → c ≡ true
vacuous n h = cc

rest_side : (a b : Bool) → a ≡ false → (a || b) ≡ true → b ≡ true
rest_side a b r h = ground arith

found_none :
    (is_none : Bool) (now : ℕ) (d : Demo)
    → IsToldAtRest (rest now (if is_none then say d (codes "No DS2431 found." ++ crlf) else d))
found_none true now d h = either d.search_running true refl
found_none false now d h = either d.search_running true refl

searched-IsToldAtRest : (now : ℕ) (d : Demo) → IsToldAtRest (searched now d)
unfolding searched select_found print_bytes
searched-IsToldAtRest now d =
    if-IsToldAtRest (not d.demo_done && not (rom_count d == 0)) _ _
      (λ e. vacuous ((start_branch _ _).same_done ∙ untold d.demo_done _ e))
      (λ e. found_none (rom_count d == 0) now _)

rested_by :
    (is_told : Bool) (now : ℕ) (d : Demo)
    → is_done d.step ≡ true
    → let d' =
        if is_told then d else say (record d { demo_done = true }) (codes "Demo done." ++ crlf) in
      IsToldAtRest (if is_over now d' then start_search d' else d')
unfolding start_search
rested_by true now d e =
    if-IsToldAtRest (is_over now d) _ _ (λ o h. refl) (λ o h. either d.search_running _ e)
rested_by false now d e =
    if-IsToldAtRest (is_over now d) _ _ (λ o h. refl) (λ o h. either d.search_running _ e)

rested-IsToldAtRest : (now : ℕ) (d : Demo) → is_done d.step ≡ true → IsToldAtRest (rested now d)
unfolding rested
rested-IsToldAtRest now d e = rested_by d.demo_done now d e

commanded-IsToldAtRest : (now : ℕ) (d : Demo) → d.demo_done ≡ false → IsToldAtRest (commanded now d)
unfolding commanded served select_found print_bytes
commanded-IsToldAtRest now d n =
    let f = (finish_branch d.step (record d { cmd_running = false })).0 in
    if-IsToldAtRest (is_read_back d.step) _ _
      (λ e. if-IsToldAtRest _ _ _ (λ o. vacuous (f.same_done ∙ n)) (λ o. vacuous (f.same_done ∙ n)))
      (λ e. vacuous (f.same_done ∙ n))

busy : (a b c : Bool) → a ≡ false → b ≡ false → (c ≡ true → (a || b) ≡ true) → c ≡ false
busy a b c x y h = ground arith

react-IsToldAtRest : (now : ℕ) (d : Demo) → IsToldAtRest d → IsToldAtRest (react now d)
unfolding react
react-IsToldAtRest now d v =
    if-IsToldAtRest d.search_running _ _
      (λ r.
        if-IsToldAtRest (poll_search d).1 _ _ (λ e. searched-IsToldAtRest now (poll_search d).0)
          (λ e h. rw (p_search d ∙ r) refl))
      (λ r.
        if-IsToldAtRest (is_done d.step) _ _ (λ e. rested-IsToldAtRest now d e)
          (λ e.
            let n = busy d.search_running (is_done d.step) d.demo_done r e v in
            if-IsToldAtRest (not d.cmd_running) _ _
              (λ c. vacuous ((start_branch d.step d).same_done ∙ n))
              (λ c.
                let b = poll_branch d.step d in
                if-IsToldAtRest (poll_step d.step d).1 _ _
                  (λ o. commanded-IsToldAtRest now _ (b.same_done ∙ n))
                  (λ o. vacuous (b.same_done ∙ n)))))
  where
    p_search : (d : Demo) → (poll_search d).0.search_running ≡ d.search_running
    p_search d = (poll_search-IsSearchPolled d).search_is

Reach-IsToldAtRest : {start d : Demo} → IsToldAtRest start → Reach start d → IsToldAtRest d
unfolding round
Reach-IsToldAtRest v here = v
Reach-IsToldAtRest v (passed now {d} run) = react-IsToldAtRest now d (Reach-IsToldAtRest v run)
Reach-IsToldAtRest v (elapsed port pair triple u run) = Reach-IsToldAtRest v run

-- When a demonstration that started in order has set `demo_done`, its cycle is over: it searches or rests.
told-IsOver :
    {start d : Demo}
    → IsInService start
    → start.demo_done ≡ false
    → Reach start d
    → d.demo_done ≡ true
    → IsOver d
told-IsOver {start} {d} v n run h =
    let s = Reach-IsToldAtRest (vacuous n) run h in
    let k = Reach-IsInService v run in
    record {
      told = h;
      step_is = s;
      sink_keeps = elim (Bool-cases d.search_running) [
        | inl r ↦ (k.searches r).sink_keeps
        | inr r ↦ (k.rests r (rest_side d.search_running (is_done d.step) r s)).sink_keeps
      ];
    }

-- When a demonstration that started in order has set `demo_done`, its cycle is over: through all rounds and
-- events from then on the driver's context stays as it is, but for the capture buffer, so that no EEPROM is read
-- or written again.
pub told_kept :
    {start d e : Demo}
    → IsInService start
    → start.demo_done ≡ false
    → Reach start d
    → d.demo_done ≡ true
    → Reach d e
    → e.world.owner ≡ record (d.world.owner) { u = e.world.owner.u }
told_kept v n run h later = (Reach-IsOver (told-IsOver v n run h) later).1
