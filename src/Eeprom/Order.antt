-- ===== src/Eeprom/Order.antt =====
-- The order between two rounds of the EEPROM demonstration, examples/8_ds2431/main.c.
use stm32_async_1wire.Prelude.{
  ℕ, ◌+◌, ◌<◌, Bool, true, false, [], get_or, length, leb, if◌then◌else◌, ◌≡◌, refl, sym, ap, ◌∙◌,
  arith,
}
use mathlib.Core.Path.{subst}
use stm32_async_1wire.Wire.{u8}
use stm32_async_1wire.Ds2431.Context.{World}
use stm32_async_1wire.Eeprom.{
  Demo, Step, read_baseline, rom_count, print_bytes, start_step, start_search, select_found, served,
  is_done,
}
use stm32_async_1wire.Eeprom.Turns.{
  IsTurn, nobody, searching, commanding, started-IsTurn, search_start-IsTurn, IsSelected,
  select-IsSelected,
}
use stm32_async_1wire.Eeprom.Steps.{
  is_command, needs_write, IsServing, start_step-IsStarted, start_branch,
}

-- A device is being served: its operation runs, or the bus is free for it.
pub record IsCycle (d : Demo) : Type 0 where
  pub step_is : is_command d.step ≡ true
  pub serving : IsServing d
  pub turn : IsTurn (if d.cmd_running then commanding else nobody) d.world

-- Nothing but the activity that the loop waits for uses the bus: the search while it runs, nothing while the
-- demonstration rests, and otherwise an operation on the device being served.
pub record IsInService (d : Demo) : Type 0 where
  pub searches : d.search_running ≡ true → IsTurn searching d.world
  pub first : d.search_running ≡ true → d.dev_idx ≡ 0
  pub rests : d.search_running ≡ false → is_done d.step ≡ true → IsTurn nobody d.world
  pub serves : d.search_running ≡ false → is_done d.step ≡ false → IsCycle d

pub free-IsTurn :
    {b : Bool} {w : World}
    → b ≡ false
    → IsTurn nobody w
    → IsTurn (if b then commanding else nobody) w
free-IsTurn e v = rw e v

pub free_of :
    {b : Bool} {w : World}
    → b ≡ false
    → IsTurn (if b then commanding else nobody) w
    → IsTurn nobody w
free_of {b} {w} e v = subst (λ (b : Bool). IsTurn (if b then commanding else nobody) w) e v

pub busy-IsTurn :
    {b : Bool} {w : World}
    → b ≡ true
    → IsTurn commanding w
    → IsTurn (if b then commanding else nobody) w
busy-IsTurn e v = rw e v

pub busy_of :
    {b : Bool} {w : World}
    → b ≡ true
    → IsTurn (if b then commanding else nobody) w
    → IsTurn commanding w
busy_of {b} {w} e v = subst (λ (b : Bool). IsTurn (if b then commanding else nobody) w) e v

pub search-IsInService :
    (d : Demo) → d.search_running ≡ true → d.dev_idx ≡ 0 → IsTurn searching d.world → IsInService d
search-IsInService d r i v = record {
  searches = λ q. v;
  first = λ q. i;
  rests = λ q. cc;
  serves = λ q. cc;
}

pub rest-IsInService :
    (d : Demo)
    → d.search_running ≡ false
    → is_done d.step ≡ true
    → IsTurn nobody d.world
    → IsInService d
rest-IsInService d r e v = record {
  searches = λ q. cc;
  first = λ q. cc;
  rests = λ q p. v;
  serves = λ q p. cc;
}

pub cycle-IsInService :
    (d : Demo) → d.search_running ≡ false → is_done d.step ≡ false → IsCycle d → IsInService d
cycle-IsInService d r e v = record {
  searches = λ q. cc;
  first = λ q. cc;
  rests = λ q p. cc;
  serves = λ q p. v;
}

pub if-IsInService :
    (b : Bool) (d1 d2 : Demo)
    → (b ≡ true → IsInService d1)
    → (b ≡ false → IsInService d2)
    → IsInService (if b then d1 else d2)
if-IsInService true d1 d2 v1 v2 = v1 refl
if-IsInService false d1 d2 v1 v2 = v2 refl

pub start_search-IsInService : (d : Demo) → IsTurn nobody d.world → IsInService (start_search d)
unfolding start_search
start_search-IsInService d v = search-IsInService _ refl refl (search_start-IsTurn d.world 8 v)

-- A running command of the device being served.
pub begun-IsInService :
    (s : Step) (d : Demo)
    → d.step ≡ s
    → d.search_running ≡ false
    → is_command s ≡ true
    → is_done s ≡ false
    → d.dev_idx < length d.found_roms
    → IsSelected (get_or d.found_roms d.dev_idx []) d.world
    → (needs_write s false ≡ true → d.world.owner.pending ≡ true)
    → IsTurn nobody d.world
    → IsInService (record (start_step s d) { cmd_running = true })
begun-IsInService s d e r c n i sel p v =
    let b = start_branch s d in
    let st = start_step-IsStarted s d c p v in
    cycle-IsInService _ (b.same_search ∙ r) (ap is_done (b.same_step ∙ e) ∙ n) (record {
      step_is = ap is_command (b.same_step ∙ e) ∙ c;
      serving = record {
        listed = rw (b.same_idx, b.same_roms) i;
        selected =
            rw (b.same_idx, b.same_roms)
              (record {
                addressed = st.0.mode_same ∙ sel.addressed;
                rom_is = st.0.rom_same ∙ sel.rom_is;
              });
        latched = λ h. st.1 (sym (ap (λ (x : Step). needs_write x true) (b.same_step ∙ e)) ∙ h);
      };
      turn = started-IsTurn _ d.world _ v st.0;
    })

-- A device of the list is selected, for its first step.
pub record IsChosen (i : ℕ) (d d' : Demo) : Type 0 where
  pub free : IsTurn nobody d'.world
  pub selected : IsSelected (get_or d.found_roms i []) d'.world
  pub step_is : d'.step ≡ read_baseline
  pub search_is : d'.search_running ≡ d.search_running
  pub cmd_is : d'.cmd_running ≡ d.cmd_running
  pub idx_is : d'.dev_idx ≡ d.dev_idx
  pub roms_are : d'.found_roms ≡ d.found_roms

pub select_found-IsChosen :
    (d : Demo) (i : ℕ) → IsTurn nobody d.world → IsChosen i d (select_found d i)
unfolding select_found print_bytes
select_found-IsChosen d i v =
    let s = select-IsSelected d.world (get_or d.found_roms i []) v in
    record {
      free = s.0;
      selected = s.1;
      step_is = refl;
      search_is = refl;
      cmd_is = refl;
      idx_is = refl;
      roms_are = refl;
    }

pub served-IsInService :
    (now : ℕ) (d : Demo)
    → d.search_running ≡ false
    → d.cmd_running ≡ false
    → IsTurn nobody d.world
    → IsInService (served now d)
unfolding served
served-IsInService now d r c v =
    let i = u8 (d.dev_idx + 1) in
    let d' : Demo = record d { dev_idx = i } in
    let s = select_found-IsChosen d' i v in
    if-IsInService (leb (rom_count d') i) _ _ (λ e. rest-IsInService _ r refl v)
      (λ e. cycle-IsInService _ (s.search_is ∙ r) (ap is_done s.step_is) (record {
        step_is = ap is_command s.step_is;
        serving = record {
          listed = rw (s.idx_is, s.roms_are) (ground arith);
          selected = rw (s.idx_is, s.roms_are) s.selected;
          latched = rw (s.step_is) (λ h. cc);
        };
        turn = free-IsTurn (s.cmd_is ∙ c) s.free;
      }))
