-- ===== src/Eeprom/Once.antt =====
-- The one-shot cycle of the EEPROM demonstration, examples/8_ds2431/main.c: `demo_done`.
use stm32_async_1wire.Prelude.{
  ℕ, Bool, true, false, not, ◌&&◌, ◌||◌, List, ◌==◌, if◌then◌else◌, ◌≡◌, refl, sym, ap, ◌∙◌, arith,
  ◌++◌, Bool-cases, inl, inr,
}
use stm32_async_1wire.Console.{codes}
use stm32_async_1wire.OneWire.{call_sink, search_poll, reset_bus}
use stm32_async_1wire.OneWire
use stm32_async_1wire.OneWire.Frame.{search_poll_sink}
use stm32_async_1wire.Ds2431.Context.{Ctx, World}
use stm32_async_1wire.Eeprom.{
  Demo, say, crlf, rest, rom_count, is_over, is_done, poll_search, start_search, searched, rested,
  react, round,
}
use stm32_async_1wire.Eeprom.Turns.{search_owner}
use stm32_async_1wire.Eeprom.Steps.{poll_search-IsSearchPolled}
use stm32_async_1wire.Eeprom.Invariant.{Reach, here, passed, elapsed, hardware}

-- The cycle is over: the demonstration searches or rests, with a sink that leaves the driver alone.
pub record IsOver (d : Demo) : Type 0 where
  pub told : d.demo_done ≡ true
  pub step_is : (d.search_running || is_done d.step) ≡ true
  pub sink_keeps : (rom : List ℕ) (c : Ctx) → (call_sink d.world.search.sink rom c).0 ≡ c

abbrev IsKeeping : World → Type 0
IsKeeping w = (rom : List ℕ) (c : Ctx) → (call_sink w.search.sink rom c).0 ≡ c

-- The cycle stays over, and the driver's context is the same.
record IsIdentified (d d' : Demo) : Type 0 where
  over : IsOver d'
  same : d'.world.owner ≡ d.world.owner

if-IsIdentified :
    (d : Demo) (b : Bool) (d1 d2 : Demo)
    → (b ≡ true → IsIdentified d d1)
    → (b ≡ false → IsIdentified d d2)
    → IsIdentified d (if b then d1 else d2)
if-IsIdentified d true d1 d2 v1 v2 = v1 refl
if-IsIdentified d false d1 d2 v1 v2 = v2 refl

told_none :
    (is_none : Bool) (now : ℕ) (d : Demo)
    → d.demo_done ≡ true
    → d.search_running ≡ false
    → IsKeeping d.world
    → IsIdentified d (rest now (if is_none then say d (codes "No DS2431 found." ++ crlf) else d))
told_none true now d t r k = record {
  over = record { told = t; step_is = rw r refl; sink_keeps = k };
  same = refl;
}
told_none false now d t r k = record {
  over = record { told = t; step_is = rw r refl; sink_keeps = k };
  same = refl;
}

no_cycle : (b c : Bool) → b ≡ true → not b && c ≡ true → ⊥
no_cycle b c t e = ground arith

searched-IsIdentified :
    (now : ℕ) (d : Demo) → d.demo_done ≡ true → IsKeeping d.world → IsIdentified d (searched now d)
unfolding searched
searched-IsIdentified now d t k =
    if-IsIdentified d (not d.demo_done && not (rom_count d == 0)) _ _
      (λ e. absurd (no_cycle _ _ t e))
      (λ e.
        let r = told_none (rom_count d == 0) now _ t refl k in
        record { over = r.over; same = r.same })

start_search-IsIdentified :
    (d : Demo) → d.demo_done ≡ true → IsKeeping d.world → IsIdentified d (start_search d)
unfolding start_search OneWire.search_start reset_bus call_sink
start_search-IsIdentified d t k = elim (Bool-cases d.world.search.finished) [
  | inl f ↦ record {
    over = record { told = t; step_is = refl; sink_keeps = λ rom c. ground (arith, f) };
    same = ground (arith, f);
  }
  | inr f ↦ record {
    over = record { told = t; step_is = refl; sink_keeps = λ rom c. ground (arith, f, k rom c) };
    same = ground (arith, f);
  }
]

rested_told :
    (b : Bool) (now : ℕ) (d e : Demo)
    → b ≡ true
    → d.demo_done ≡ true
    → (d.search_running || is_done d.step) ≡ true
    → IsKeeping d.world
    → let d' = if b then d else e in IsIdentified d (if is_over now d' then start_search d' else d')
rested_told true now d e b t s k =
    if-IsIdentified d (is_over now d) _ _ (λ o. start_search-IsIdentified d t k)
      (λ o. record { over = record { told = t; step_is = s; sink_keeps = k }; same = refl })
rested_told false now d e b t s k = cc

rested-IsIdentified :
    (now : ℕ) (d : Demo)
    → d.demo_done ≡ true
    → (d.search_running || is_done d.step) ≡ true
    → IsKeeping d.world
    → IsIdentified d (rested now d)
unfolding rested
rested-IsIdentified now d t s k = rested_told d.demo_done now d _ t t s k

react-IsIdentified : (now : ℕ) (d : Demo) → IsOver d → IsIdentified d (react now d)
unfolding react
react-IsIdentified now d v =
    let p = poll_search-IsSearchPolled d in
    let d' = (poll_search d).0 in
    let o = ap (λ (w : World). w.owner) p.world_is ∙ search_owner d.world v.sink_keeps in
    let k : IsKeeping d'.world = rw (p.world_is, search_poll_sink d.world) v.sink_keeps in
    if-IsIdentified d d.search_running _ _
      (λ r.
        if-IsIdentified d (poll_search d).1 _ _
          (λ e.
            let f = searched-IsIdentified now d' (p.done_is ∙ v.told) k in
            record { over = f.over; same = f.same ∙ o })
          (λ e. record {
            over = record {
              told = p.done_is ∙ v.told;
              step_is = rw (p.search_is, r) refl;
              sink_keeps = k;
            };
            same = o;
          }))
      (λ r.
        if-IsIdentified d (is_done d.step) _ _
          (λ e. rested-IsIdentified now d v.told v.step_is v.sink_keeps)
          (λ e. absurd (cycling d.search_running (is_done d.step) r e v.step_is)))
  where
    cycling : (a b : Bool) → a ≡ false → b ≡ false → (a || b) ≡ true → ⊥
    cycling a b x y h = ground arith

-- Once the one-shot cycle is over it stays over: through all rounds and events the driver's context stays as
-- it is, but for the capture buffer, so that no EEPROM is read or written again.
pub Reach-IsOver :
    {start d : Demo}
    → IsOver start
    → Reach start d
    → IsOver d × (d.world.owner ≡ record (start.world.owner) { u = d.world.owner.u })
unfolding round hardware
Reach-IsOver v here = (v, refl)
Reach-IsOver {start} v (passed now {d} run) =
    let i = Reach-IsOver v run in
    let k = react-IsIdentified now d i.0 in
    (
      record { told = k.over.told; step_is = k.over.step_is; sink_keeps = k.over.sink_keeps },
      k.same
          ∙ i.1
          ∙ ap (λ (u : List ℕ). record (start.world.owner) { u = u })
              (sym (ap (λ (c : Ctx). c.u) k.same)),
    )
Reach-IsOver v (elapsed port pair triple u run) =
    let i = Reach-IsOver v run in
    (
      record { told = i.0.told; step_is = i.0.step_is; sink_keeps = i.0.sink_keeps },
      ap (λ (c : Ctx). record c { u = u }) i.1,
    )
