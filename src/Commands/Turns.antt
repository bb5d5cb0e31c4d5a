-- ===== src/Commands/Turns.antt =====
-- Whose turn it is on the bus, as the calls of the DS18B20 driver hand it on (src/ds18b20_txn.c,
-- src/ds18b20_search.c, src/ds18b20_measure.c).
use stm32_async_1wire.Prelude.{
  ℕ, Bool, true, false, List, Option, none, some, ◌≡◌, refl, ap, ◌∙◌, arith, Bool-cases, inl, inr,
}
use stm32_async_1wire.OneWire.{
  call_sink, search_poll, search_active, reset_bus, timer_kick, strong_pullup,
}
use stm32_async_1wire.OneWire
use stm32_async_1wire.OneWire.Frame.{search_poll_sink}
use stm32_async_1wire.Port.{Port}
use stm32_async_1wire.Ds18b20.Context.{World, Driver, is_idle, is_free, init, select, choose_rom}
use stm32_async_1wire.Ds18b20.Txn.{txn_can_start, txn_start, txn_build_pulses}
use stm32_async_1wire.Ds18b20.Search.{search_start, alarm_search_start}
use stm32_async_1wire.Ds18b20.Measure.{start_measure, poll}
use stm32_async_1wire.Ds18b20.Calls.{hardware}
use stm32_async_1wire.Ds18b20.Invariant.{IsKept, report_keeps, store_sink_keeps, alarm_sink_keeps}
use stm32_async_1wire.Commands.Kept.{poll-IsMeasured, IsCommandPoll}

-- The activity that may own the bus: none, a search, a transaction or a measurement.
pub data Turn : Type 0 where
  nobody search transaction measurement : Turn

abbrev pub may_search : Turn → Bool
may_search search = true
may_search _ = false

abbrev pub may_transact : Turn → Bool
may_transact transaction = true
may_transact _ = false

abbrev pub may_measure : Turn → Bool
may_measure measurement = true
may_measure _ = false

-- No other activity than this one owns the bus.
pub record IsTurn (t : Turn) (w : World) : Type 0 where
  pub no_res : w.owner.res.finished ≡ true
  pub no_scan : w.owner.ctx.scan_mode ≡ false
  pub no_search : may_search t ≡ false → w.search.finished ≡ true
  pub no_txn : may_transact t ≡ false → w.owner.txn.finished ≡ true
  pub no_measure : may_measure t ≡ false → is_idle w.owner.ctx.current_state ≡ true
  pub sink_keeps : (rom : List ℕ) (d : Driver) → IsKept d (call_sink w.search.sink rom d).0

pub free : (w : World) → IsTurn nobody w → is_free w ≡ true
unfolding search_active
free w v = ground (arith, v.no_search refl, v.no_txn refl, v.no_measure refl, v.no_res)

pub can_start : (w : World) → IsTurn nobody w → txn_can_start w ≡ true
unfolding txn_can_start
can_start w v = rw (free w v, v.no_scan) refl

-- Nobody uses the bus, so that anybody may.
pub any_turn : (t : Turn) (w : World) → IsTurn nobody w → IsTurn t w
any_turn t w v = record {
  no_res = v.no_res;
  no_scan = v.no_scan;
  no_search = λ h. v.no_search refl;
  no_txn = λ h. v.no_txn refl;
  no_measure = λ h. v.no_measure refl;
  sink_keeps = v.sink_keeps;
}

pub txn_start-IsTurn :
    (w : World) (command : ℕ) (out : Option (List ℕ)) (payload : List ℕ)
    (payload_len read_bytes wait_us : ℕ) (bare : Bool)
    → IsTurn nobody w
    → IsTurn transaction (txn_start w command out payload payload_len read_bytes wait_us bare)
unfolding txn_start txn_build_pulses strong_pullup reset_bus
txn_start-IsTurn w command out payload payload_len read_bytes wait_us bare v =
    rw (can_start w v) (record {
      no_res = v.no_res;
      no_scan = v.no_scan;
      no_search = λ h. v.no_search refl;
      no_txn = λ h. cc;
      no_measure = λ h. v.no_measure refl;
      sink_keeps = v.sink_keeps;
    })

pub poll-IsTurn : (w : World) → IsTurn measurement w → IsTurn measurement (poll w)
poll-IsTurn w v =
    let f = poll-IsMeasured w in
    record {
      no_res = rw f.res_same v.no_res;
      no_scan = f.scan_same ∙ v.no_scan;
      no_search = λ h. rw f.search_same (v.no_search refl);
      no_txn = λ h. rw f.txn_same (v.no_txn refl);
      no_measure = λ h. cc;
      sink_keeps = rw f.search_same v.sink_keeps;
    }

pub start_measure-IsTurn : (w : World) → IsTurn measurement w → IsTurn measurement (start_measure w)
unfolding start_measure timer_kick
start_measure-IsTurn w v = elim (Bool-cases (is_free w)) [
  | inl e ↦ rw e (record {
    no_res = v.no_res;
    no_scan = v.no_scan;
    no_search = v.no_search;
    no_txn = v.no_txn;
    no_measure = λ h. cc;
    sink_keeps = v.sink_keeps;
  })
  | inr e ↦ rw e v
]

pub search_poll-IsTurn : (w : World) → IsTurn search w → IsTurn search (search_poll w).0
search_poll-IsTurn w v =
    let k = report_keeps w v.sink_keeps in
    record {
      no_res = rw k.same_res v.no_res;
      no_scan = rw k.same_ctx v.no_scan;
      no_search = λ h. cc;
      no_txn = λ h. rw k.same_txn (v.no_txn refl);
      no_measure = λ h. rw k.same_ctx (v.no_measure refl);
      sink_keeps = rw (search_poll_sink w) v.sink_keeps;
    }

pub command-IsTurn :
    (w : World) (polled : World × Bool)
    → IsCommandPoll w polled
    → IsTurn transaction w
    → IsTurn transaction polled.0
command-IsTurn w polled p v =
    let f = p.kept in
    record {
      no_res = rw f.res_kept v.no_res;
      no_scan = f.scan_kept ∙ v.no_scan;
      no_search = λ h. rw f.search_kept (v.no_search refl);
      no_txn = λ h. cc;
      no_measure = λ h. ap is_idle f.state_kept ∙ v.no_measure refl;
      sink_keeps = rw f.search_kept v.sink_keeps;
    }

pub search_start-IsTurn :
    (w : World) (sink : Option (List ℕ → ℕ)) (limit : ℕ)
    → IsTurn nobody w
    → IsTurn search (search_start w sink limit)
unfolding search_start OneWire.search_start reset_bus call_sink
search_start-IsTurn w sink limit v =
    let f = v.no_search refl in
    rw (free w v, f)
      (record {
        no_res = ground (arith, v.no_res);
        no_scan = ground (arith, v.no_scan);
        no_search = λ h. cc;
        no_txn = λ h. ground (arith, v.no_txn refl);
        no_measure = λ h. ground (arith, v.no_measure refl);
        sink_keeps = grind (arith, store_sink_keeps);
      })

pub alarm_search_start-IsTurn :
    (w : World) (sink : Option (List ℕ → ℕ)) (limit : ℕ)
    → IsTurn nobody w
    → IsTurn search (alarm_search_start w sink limit)
unfolding alarm_search_start OneWire.search_start reset_bus call_sink
alarm_search_start-IsTurn w sink limit v =
    let f = v.no_search refl in
    rw (free w v, f)
      (record {
        no_res = ground (arith, v.no_res);
        no_scan = ground (arith, v.no_scan);
        no_search = λ h. cc;
        no_txn = λ h. ground (arith, v.no_txn refl);
        no_measure = λ h. ground (arith, v.no_measure refl);
        sink_keeps = grind (arith, alarm_sink_keeps);
      })

pub select-IsTurn :
    (w : World) (rom : Option (List ℕ)) → IsTurn nobody w → IsTurn nobody (select w rom)
unfolding select choose_rom
select-IsTurn w none v = rw (free w v) (record {
  no_res = v.no_res;
  no_scan = refl;
  no_search = v.no_search;
  no_txn = v.no_txn;
  no_measure = v.no_measure;
  sink_keeps = v.sink_keeps;
})
select-IsTurn w (some rom) v = rw (free w v) (record {
  no_res = v.no_res;
  no_scan = refl;
  no_search = v.no_search;
  no_txn = v.no_txn;
  no_measure = v.no_measure;
  sink_keeps = v.sink_keeps;
})

pub search_ended : (w : World) → IsTurn search w → w.search.finished ≡ true → IsTurn nobody w
search_ended w v f = record {
  no_res = v.no_res;
  no_scan = v.no_scan;
  no_search = λ h. f;
  no_txn = λ h. v.no_txn refl;
  no_measure = λ h. v.no_measure refl;
  sink_keeps = v.sink_keeps;
}

pub txn_ended : (w : World) → IsTurn transaction w → w.owner.txn.finished ≡ true → IsTurn nobody w
txn_ended w v f = record {
  no_res = v.no_res;
  no_scan = v.no_scan;
  no_search = λ h. v.no_search refl;
  no_txn = λ h. f;
  no_measure = λ h. v.no_measure refl;
  sink_keeps = v.sink_keeps;
}

pub hardware-IsTurn :
    (t : Turn) (port : Port) (pair triple storage : List ℕ) (w : World)
    → IsTurn t w
    → IsTurn t (hardware port pair triple storage w)
unfolding hardware
hardware-IsTurn t port pair triple storage w v = record {
  no_res = v.no_res;
  no_scan = v.no_scan;
  no_search = v.no_search;
  no_txn = v.no_txn;
  no_measure = v.no_measure;
  sink_keeps = v.sink_keeps;
}

-- At reset nobody uses the bus.
pub init-IsTurn :
    (mhz : ℕ) (w : World)
    → is_idle w.owner.ctx.current_state ≡ true
    → w.search.sink ≡ none
    → IsTurn nobody (init mhz w)
unfolding init OneWire.init call_sink
init-IsTurn mhz w i n = record {
  no_res = refl;
  no_scan = refl;
  no_search = λ h. refl;
  no_txn = λ h. refl;
  no_measure = λ h. i;
  sink_keeps = λ rom d.
      rw n (record { same_ctx = refl; same_txn = refl; same_res = refl; devices_le = λ h. h });
}
