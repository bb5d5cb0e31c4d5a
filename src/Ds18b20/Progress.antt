-- ===== src/Ds18b20/Progress.antt =====
-- Every command transaction and every resolution change ends: `txn_poll` and
-- `ds18b20_set_resolution_poll`, with the timer completing what was scheduled before each poll.
use stm32_async_1wire.Prelude.{ℕ, zero, suc, ◌≤◌, ◌<◌, ◌⊎◌, inl, inr, true, ◌≡◌, refl, arith}
use stm32_async_1wire.Port
use stm32_async_1wire.OneWire.{op_done, write_slots, read_data, strong_pullup, start_wait}
use stm32_async_1wire.Ds18b20.Context.{TxnPhase, ResPhase, World}
use stm32_async_1wire.Ds18b20.Txn.{
  txn_poll, txn_poll_phase, txn_switch, txn_after_write, txn_decode_read,
}
use stm32_async_1wire.Ds18b20.Resolution.{set_resolution_poll, res_poll_phase, res_switch}

-- The timer reaches its update event.
abbrev pub complete_op : World → World
complete_op w = record w { port = record (w.port) { uif = true } }

-- `n` polls of the transaction, each after its operation completed.
unfoldable pub settle_txn : ℕ → World → World
settle_txn zero w = w
settle_txn (suc n) w = settle_txn n (txn_poll (complete_op w)).0

-- `n` polls of the resolution change, each after its operation completed.
unfoldable pub settle_res : ℕ → World → World
settle_res zero w = w
settle_res (suc n) w = settle_res n (set_resolution_poll (complete_op w)).0

txn_left : TxnPhase → ℕ
txn_left TxnPhase.reset = 4
txn_left TxnPhase.write = 3
txn_left TxnPhase.read = 2
txn_left TxnPhase.wait = 2
txn_left TxnPhase.done = 1

txn_left_pos : (phase : TxnPhase) → (1 ≤ txn_left phase) × (txn_left phase ≤ 4)
unfolding txn_left
txn_left_pos TxnPhase.reset = ground arith
txn_left_pos TxnPhase.write = ground arith
txn_left_pos TxnPhase.read = ground arith
txn_left_pos TxnPhase.wait = ground arith
txn_left_pos TxnPhase.done = ground arith

txn_phase_progress :
    (phase : TxnPhase) (w : World)
    → w.port.uif ≡ true
    → ((txn_poll_phase phase w).0.owner.txn.finished ≡ true)
      ⊎ (txn_left (txn_poll_phase phase w).0.owner.txn.phase < txn_left phase)
unfolding txn_poll_phase txn_switch txn_after_write txn_decode_read op_done Port.bus_done
    write_slots read_data strong_pullup start_wait txn_left
txn_phase_progress TxnPhase.reset w u = ground arith
txn_phase_progress TxnPhase.write w u = ground arith
txn_phase_progress TxnPhase.read w u = ground arith
txn_phase_progress TxnPhase.wait w u = ground arith
txn_phase_progress TxnPhase.done w u = inl refl

txn_progress :
    (w : World)
    → w.port.uif ≡ true
    → ((txn_poll w).0.owner.txn.finished ≡ true)
      ⊎ (txn_left (txn_poll w).0.owner.txn.phase < txn_left w.owner.txn.phase)
unfolding txn_poll
txn_progress w u = ground (arith, txn_phase_progress w.owner.txn.phase w u)

txn_finished_stays : (w : World) → w.owner.txn.finished ≡ true → (txn_poll w).0 ≡ w
unfolding txn_poll
txn_finished_stays w h = ground arith

settle_finished :
    (n : ℕ) (w : World) → w.owner.txn.finished ≡ true → (settle_txn n w).owner.txn.finished ≡ true
unfolding settle_txn
settle_finished zero w h = h
settle_finished (suc n) w h = settle_finished n _ (rw (txn_finished_stays (complete_op w) h) h)

settle_within :
    (n : ℕ) (w : World)
    → txn_left w.owner.txn.phase ≤ n
    → (settle_txn n w).owner.txn.finished ≡ true
unfolding settle_txn
settle_within zero w h = absurd (omega (arith, txn_left_pos w.owner.txn.phase))
settle_within (suc n) w h = elim (txn_progress (complete_op w) refl) [
  | inl f ↦ settle_finished n _ f
  | inr l ↦ settle_within n _ (omega arith)
]

-- Whatever the bus answers, a transaction is finished after at most four polls that find their
-- operation completed.
pub settle_txn-finished : (w : World) → (settle_txn 4 w).owner.txn.finished ≡ true
settle_txn-finished w = settle_within 4 w (txn_left_pos w.owner.txn.phase).1

res_left : ResPhase → ℕ
res_left ResPhase.reset = 3
res_left ResPhase.write = 2
res_left ResPhase.done = 1

res_left_pos : (phase : ResPhase) → (1 ≤ res_left phase) × (res_left phase ≤ 3)
unfolding res_left
res_left_pos ResPhase.reset = ground arith
res_left_pos ResPhase.write = ground arith
res_left_pos ResPhase.done = ground arith

res_phase_progress :
    (phase : ResPhase) (w : World)
    → w.port.uif ≡ true
    → ((res_poll_phase phase w).0.owner.res.finished ≡ true)
      ⊎ (res_left (res_poll_phase phase w).0.owner.res.phase < res_left phase)
unfolding res_poll_phase res_switch op_done Port.bus_done write_slots res_left
res_phase_progress ResPhase.reset w u = ground arith
res_phase_progress ResPhase.write w u = ground arith
res_phase_progress ResPhase.done w u = inl refl

res_progress :
    (w : World)
    → w.port.uif ≡ true
    → ((set_resolution_poll w).0.owner.res.finished ≡ true)
      ⊎ (res_left (set_resolution_poll w).0.owner.res.phase < res_left w.owner.res.phase)
unfolding set_resolution_poll
res_progress w u = ground (arith, res_phase_progress w.owner.res.phase w u)

res_finished_stays : (w : World) → w.owner.res.finished ≡ true → (set_resolution_poll w).0 ≡ w
unfolding set_resolution_poll
res_finished_stays w h = ground arith

res_settled :
    (n : ℕ) (w : World) → w.owner.res.finished ≡ true → (settle_res n w).owner.res.finished ≡ true
unfolding settle_res
res_settled zero w h = h
res_settled (suc n) w h = res_settled n _ (rw (res_finished_stays (complete_op w) h) h)

res_within :
    (n : ℕ) (w : World)
    → res_left w.owner.res.phase ≤ n
    → (settle_res n w).owner.res.finished ≡ true
unfolding settle_res
res_within zero w h = absurd (omega (arith, res_left_pos w.owner.res.phase))
res_within (suc n) w h = elim (res_progress (complete_op w) refl) [
  | inl f ↦ res_settled n _ f
  | inr l ↦ res_within n _ (omega arith)
]

-- Whatever the bus answers, a resolution change is finished after at most three polls that find their
-- operation completed.
pub settle_res-finished : (w : World) → (settle_res 3 w).owner.res.finished ≡ true
settle_res-finished w = res_within 3 w (res_left_pos w.owner.res.phase).1
