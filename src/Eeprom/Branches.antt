-- ===== src/Eeprom/Branches.antt =====
-- The branches of the loop of the EEPROM demonstration, examples/8_ds2431/main.c.
use stm32_async_1wire.Prelude.{
  ℕ, ◌<◌, Bool, true, false, not, ◌&&◌, ◌==◌, length, if◌then◌else◌, ◌≡◌, refl, sym, ap₂, ◌++◌, ap,
  ◌∙◌, arith,
}
use stm32_async_1wire.Prelude.Int.{pos}
use stm32_async_1wire.Console.{codes, write_int}
use stm32_async_1wire.OneWire.{search_count}
use stm32_async_1wire.Eeprom.{
  Demo, say, rest, crlf, Step, read_baseline, write_scratchpad, read_scratchpad, copy_scratchpad,
  read_back, search, done, rom_count, start_step, poll_step, poll_search, start_search,
  select_found, searched, is_over, rested, commanded, next_step, is_read_back, is_done, finish_step,
}
use stm32_async_1wire.Eeprom.Turns.{
  IsTurn, nobody, searching, polled-IsTurn, command_ended, search_poll-IsTurn, search_ended,
}
use stm32_async_1wire.Eeprom.Steps.{
  is_command, needs_write, IsServing, poll_step-IsPolled, poll_branch, finish_branch,
  poll_search-IsSearchPolled,
}
use stm32_async_1wire.Eeprom.Order.{
  IsInService, IsCycle, free-IsTurn, free_of, busy-IsTurn, busy_of, search-IsInService,
  rest-IsInService, cycle-IsInService, if-IsInService, start_search-IsInService, begun-IsInService,
  select_found-IsChosen, served-IsInService,
}

positive : (n : ℕ) (b : Bool) → not b && not (n == 0) ≡ true → 0 < n
positive n b h = ground arith

-- The state in which the search has ended and its count is printed.
counted : Demo → Demo
counted d =
    let d1 = say d (codes "Found ") in
    let d2 : Demo = record d1 { ring = (write_int d1.ring (pos (search_count d1.world))).0 } in
    record (say d2 (codes " device(s)." ++ crlf)) { search_running = false }

none_found :
    (is_none : Bool) (now : ℕ) (d : Demo)
    → d.search_running ≡ false
    → IsTurn nobody d.world
    → IsInService (rest now (if is_none then say d (codes "No DS2431 found." ++ crlf) else d))
none_found true now d r v = rest-IsInService _ r refl v
none_found false now d r v = rest-IsInService _ r refl v

searched-IsInService :
    (now : ℕ) (d : Demo) → d.dev_idx ≡ 0 → IsTurn nobody d.world → IsInService (searched now d)
unfolding searched counted
searched-IsInService now d i v =
    let q = counted d in
    let s = select_found-IsChosen q 0 v in
    if-IsInService (not q.demo_done && not (rom_count q == 0)) _ _
      (λ e.
        begun-IsInService read_baseline (select_found q 0) s.step_is s.search_is refl refl
          (rw (s.idx_is ∙ i, s.roms_are) (positive (length d.found_roms) d.demo_done e))
          (rw (s.idx_is ∙ i, s.roms_are) s.selected) (λ h. cc) s.free)
      (λ e. none_found (rom_count q == 0) now q refl v)

rested_by :
    (is_told : Bool) (now : ℕ) (d : Demo)
    → d.search_running ≡ false
    → is_done d.step ≡ true
    → IsTurn nobody d.world
    → let d' =
        if is_told then d else say (record d { demo_done = true }) (codes "Demo done." ++ crlf) in
      IsInService (if is_over now d' then start_search d' else d')
rested_by true now d r e v =
    if-IsInService (is_over now d) _ _ (λ q. start_search-IsInService d v)
      (λ q. rest-IsInService d r e v)
rested_by false now d r e v =
    let d' = say (record d { demo_done = true }) (codes "Demo done." ++ crlf) in
    if-IsInService (is_over now d') _ _ (λ q. start_search-IsInService d' v)
      (λ q. rest-IsInService d' r e v)

pub rested-IsInService :
    (now : ℕ) (d : Demo)
    → d.search_running ≡ false
    → is_done d.step ≡ true
    → IsTurn nobody d.world
    → IsInService (rested now d)
unfolding rested
rested-IsInService now d r e v = rested_by d.demo_done now d r e v

next_needs :
    (s : Step)
    → is_read_back s ≡ false
    → needs_write (next_step s) false ≡ true
    → needs_write s true ≡ true
next_needs search b h = cc
next_needs read_baseline b h = cc
next_needs write_scratchpad b h = refl
next_needs read_scratchpad b h = refl
next_needs copy_scratchpad b h = cc
next_needs read_back b h = cc
next_needs done b h = cc

next_command :
    (s : Step)
    → is_read_back s ≡ false
    → is_command s ≡ true
    → (is_command (next_step s) ≡ true) × (is_done (next_step s) ≡ false)
next_command search b h = cc
next_command read_baseline b h = (refl, refl)
next_command write_scratchpad b h = (refl, refl)
next_command read_scratchpad b h = (refl, refl)
next_command copy_scratchpad b h = (refl, refl)
next_command read_back b h = cc
next_command done b h = cc

commanded-IsInService :
    (now : ℕ) (d : Demo)
    → d.search_running ≡ false
    → d.cmd_running ≡ true
    → is_command d.step ≡ true
    → IsServing d
    → IsTurn nobody d.world
    → IsInService (commanded now d)
unfolding commanded
commanded-IsInService now d r c s v p =
    let q : Demo = record d { cmd_running = false } in
    let f = finish_branch d.step q in
    let b = f.0 in
    let p' : IsTurn nobody (finish_step d.step q).world = rw (f.1) p in
    if-IsInService (is_read_back d.step) _ _
      (λ e. served-IsInService now _ (b.same_search ∙ r) b.same_cmd p')
      (λ e.
        let n = next_command d.step e s in
        cycle-IsInService _ (b.same_search ∙ r) n.1 (record {
          step_is = n.0;
          serving = record {
            listed = rw (b.same_idx, b.same_roms) v.listed;
            selected = rw (f.1, b.same_idx, b.same_roms) v.selected;
            latched = λ h. rw (f.1) (
                v.latched (
                  rw c (
                    next_needs d.step e
                      (sym (ap (needs_write (next_step d.step)) b.same_cmd) ∙ h))));
          };
          turn = free-IsTurn b.same_cmd p';
        }))

pub found-IsInService :
    (now : ℕ) (d : Demo)
    → d.search_running ≡ true
    → d.dev_idx ≡ 0
    → IsTurn searching d.world
    → let (d', ended) = poll_search d in IsInService (if ended then searched now d' else d')
found-IsInService now d r i v =
    let p = poll_search-IsSearchPolled d in
    let d' = (poll_search d).0 in
    if-IsInService (poll_search d).1 (searched now d') d'
      (λ e.
        searched-IsInService now d' (p.idx_is ∙ i)
          (rw (p.world_is) (search_ended d.world v (sym p.answer_is ∙ e))))
      (λ e.
        search-IsInService d' (p.search_is ∙ r) (p.idx_is ∙ i)
          (rw (p.world_is) (search_poll-IsTurn d.world v)))

pub started-IsInService :
    (d : Demo)
    → d.search_running ≡ false
    → is_done d.step ≡ false
    → d.cmd_running ≡ false
    → IsCycle d
    → IsInService (record (start_step d.step d) { cmd_running = true })
started-IsInService d r e c v =
    begun-IsInService d.step d refl r v.step_is e v.serving.listed v.serving.selected
      (λ h. v.serving.latched (ap (needs_write d.step) c ∙ h)) (free_of c v.turn)

pub polled-IsInService :
    (now : ℕ) (d : Demo)
    → d.search_running ≡ false
    → is_done d.step ≡ false
    → d.cmd_running ≡ true
    → IsCycle d
    → let (d', ended) = poll_step d.step d in IsInService (if ended then commanded now d' else d')
polled-IsInService now d r n c v =
    let p = poll_step-IsPolled d.step d v.step_is in
    let b = poll_branch d.step d in
    let d' = (poll_step d.step d).0 in
    let t = polled-IsTurn d.world _ p (busy_of c v.turn) in
    let s : IsServing d' = record {
      listed = rw (b.same_idx, b.same_roms) v.serving.listed;
      selected =
          rw (b.same_idx, b.same_roms)
            (record {
              addressed = p.kept.mode_kept ∙ v.serving.selected.addressed;
              rom_is = p.kept.rom_kept ∙ v.serving.selected.rom_is;
            });
      latched = λ h.
          p.kept.pending_kept
          ∙ v.serving.latched (ap₂ needs_write (sym b.same_step) (sym b.same_cmd) ∙ h);
    } in
    if-IsInService (poll_step d.step d).1 (commanded now d') d'
      (λ e.
        commanded-IsInService now d' (b.same_search ∙ r) (b.same_cmd ∙ c)
          (ap is_command b.same_step ∙ v.step_is) s (command_ended d'.world t (p.finishes e)))
      (λ e. cycle-IsInService d' (b.same_search ∙ r) (ap is_done b.same_step ∙ n) (record {
        step_is = ap is_command b.same_step ∙ v.step_is;
        serving = s;
        turn = busy-IsTurn (b.same_cmd ∙ c) t;
      }))
