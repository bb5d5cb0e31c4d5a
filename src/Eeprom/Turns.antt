-- ===== src/Eeprom/Turns.antt =====
-- Who uses the bus in the EEPROM demonstration, examples/8_ds2431/main.c, and which device is served.
use stm32_async_1wire.Prelude.{
  ℕ, Bool, true, false, List, some, take, ◌≡◌, refl, ◌∙◌, arith, inl, inr,
}
use stm32_async_1wire.OneWire.{call_sink, search_poll, search_active, reset_bus}
use stm32_async_1wire.OneWire
use stm32_async_1wire.OneWire.Frame.{search_poll_sink, search_finished}
use stm32_async_1wire.OneWire.Reports.{search_poll_reports}
use stm32_async_1wire.Ds2431.Context.{Ctx, World, is_parked, select, choose_rom}
use stm32_async_1wire.Ds2431.Txn.{can_start}
use stm32_async_1wire.Eeprom.{sink}
use stm32_async_1wire.Eeprom.Kept.{IsSettled, IsPolled, IsStarted}

-- The activity that may own the bus: none, a search, or an operation of the driver.
pub data Turn : Type 0 where
  nobody searching commanding : Turn

abbrev pub may_search : Turn → Bool
may_search searching = true
may_search _ = false

abbrev pub may_command : Turn → Bool
may_command commanding = true
may_command _ = false

-- No other activity than the one of the turn uses the bus, and a search leaves the driver alone.
pub record IsTurn (t : Turn) (w : World) : Type 0 where
  pub no_search : may_search t ≡ false → w.search.finished ≡ true
  pub no_command : may_command t ≡ false → is_parked w.owner.phase ≡ true
  pub settled : IsSettled w
  pub sink_keeps : (rom : List ℕ) (c : Ctx) → (call_sink w.search.sink rom c).0 ≡ c

pub startable : (w : World) → IsTurn nobody w → can_start w ≡ true
unfolding can_start search_active
startable w v = ground (arith, v.no_search refl, v.no_command refl)

pub started-IsTurn :
    (command : ℕ) (w w' : World) → IsTurn nobody w → IsStarted command w w' → IsTurn commanding w'
started-IsTurn command w w' v s = record {
  no_search = λ h. rw s.search_same (v.no_search refl);
  no_command = λ h. cc;
  settled = λ h. cc;
  sink_keeps = rw s.search_same v.sink_keeps;
}

pub polled-IsTurn :
    (w : World) (polled : World × Bool)
    → IsPolled w polled
    → IsTurn commanding w
    → IsTurn commanding polled.0
polled-IsTurn w polled p v = record {
  no_search = λ h. rw p.kept.search_kept (v.no_search refl);
  no_command = λ h. cc;
  settled = p.settles v.settled;
  sink_keeps = rw p.kept.search_kept v.sink_keeps;
}

pub command_ended : (w : World) → IsTurn commanding w → w.owner.finished ≡ true → IsTurn nobody w
command_ended w v f = record {
  no_search = λ h. v.no_search refl;
  no_command = λ h. v.settled f;
  settled = v.settled;
  sink_keeps = v.sink_keeps;
}

-- A poll of the search leaves the driver alone.
pub search_owner :
    (w : World)
    → ((rom : List ℕ) (c : Ctx) → (call_sink w.search.sink rom c).0 ≡ c)
    → (search_poll w).0.owner ≡ w.owner
search_owner w k = elim (search_poll_reports w) [
  | inl s ↦ s.same_owner
  | inr r ↦ r.sunk ∙ k w.search.rom w.owner
]

pub search_poll-IsTurn : (w : World) → IsTurn searching w → IsTurn searching (search_poll w).0
search_poll-IsTurn w v = record {
  no_search = λ h. cc;
  no_command = λ h. rw (search_owner w v.sink_keeps) (v.no_command refl);
  settled = rw (search_owner w v.sink_keeps) v.settled;
  sink_keeps = rw (search_poll_sink w) v.sink_keeps;
}

pub search_ended :
    (w : World) → IsTurn searching w → (search_poll w).1 ≡ true → IsTurn nobody (search_poll w).0
search_ended w v h =
    let t = search_poll-IsTurn w v in
    record {
      no_search = λ q. search_finished w h;
      no_command = λ q. t.no_command refl;
      settled = t.settled;
      sink_keeps = t.sink_keeps;
    }

pub search_start-IsTurn :
    (w : World) (limit : ℕ)
    → IsTurn nobody w
    → IsTurn searching (OneWire.search_start w (some sink) limit 0xf0 0x2d)
unfolding OneWire.search_start reset_bus call_sink
search_start-IsTurn w limit v = rw (v.no_search refl) (record {
  no_search = λ h. cc;
  no_command = λ h. ground (arith, v.no_command refl);
  settled = λ h. ground (arith, v.settled);
  sink_keeps = λ rom c. ground arith;
})

-- The driver addresses the chosen device.
pub record IsSelected (rom : List ℕ) (w : World) : Type 0 where
  pub addressed : w.owner.address_mode ≡ true
  pub rom_is : w.owner.selected_rom ≡ take 8 rom

pub select-IsSelected :
    (w : World) (rom : List ℕ)
    → IsTurn nobody w
    → IsTurn nobody (select w (some rom)) × IsSelected rom (select w (some rom))
unfolding select choose_rom search_active
select-IsSelected w rom v =
    rw (v.no_command refl, v.no_search refl)
      (
        record {
          no_search = λ h. refl;
          no_command = v.no_command;
          settled = v.settled;
          sink_keeps = v.sink_keeps;
        },
        record { addressed = refl; rom_is = refl },
      )
