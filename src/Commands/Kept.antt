-- ===== src/Commands/Kept.antt =====
-- What the calls of the demonstration leave alone of the DS18B20 driver: src/ds18b20_measure.c and
-- src/ds18b20_txn.c.
use stm32_async_1wire.Prelude.{
  ℕ, Bool, true, not, ◌||◌, ◌≡◌, refl, ◌∙◌, arith, Bool-cases, inl, inr,
}
use stm32_async_1wire.OneWire.{
  op_done, reset_bus, write_slots, read_data, strong_pullup, start_wait, search_active,
}
use stm32_async_1wire.Ds18b20.Context.{
  State, TxnPhase, World, State, idle, start, convert, wait, continue, request, read, decode,
  build_addr_cmd, decode_scratchpad,
}
use stm32_async_1wire.Ds18b20.Txn.{
  txn_poll, txn_poll_phase, txn_switch, txn_after_write, txn_decode_read, txn_copy_out,
  read_rom_poll, read_scratchpad_poll, take_scratchpad, detect_parasite_poll,
}
use stm32_async_1wire.Ds18b20.Measure.{
  poll, poll_state, poll_start, poll_convert, poll_request, poll_decode, report, issue_command,
  send_command, scan_finish_or_next, parasite_pullup,
}

-- Only the measurement goes on.
pub record IsMeasured (w w' : World) : Type 0 where
  pub search_same : w'.search ≡ w.search
  pub txn_same : w'.owner.txn ≡ w.owner.txn
  pub res_same : w'.owner.res ≡ w.owner.res
  pub scan_same : w'.owner.ctx.scan_mode ≡ w.owner.ctx.scan_mode

then-IsMeasured : {u v w : World} → IsMeasured u v → IsMeasured v w → IsMeasured u w
then-IsMeasured f g = record {
  search_same = g.search_same ∙ f.search_same;
  txn_same = g.txn_same ∙ f.txn_same;
  res_same = g.res_same ∙ f.res_same;
  scan_same = g.scan_same ∙ f.scan_same;
}

pullup-IsMeasured : (w : World) (on : Bool) → IsMeasured w (parasite_pullup w on)
unfolding parasite_pullup strong_pullup
pullup-IsMeasured w on = ground arith

issue-IsMeasured :
    (w : World) (cmd_byte : ℕ) (next : State) → IsMeasured w (issue_command w cmd_byte next)
unfolding issue_command send_command build_addr_cmd write_slots parasite_pullup strong_pullup
issue-IsMeasured w cmd_byte next = ground arith

finish-IsMeasured : (w : World) → IsMeasured w (scan_finish_or_next w)
unfolding scan_finish_or_next start_wait parasite_pullup strong_pullup
finish-IsMeasured w = ground arith

convert-IsMeasured : (w : World) → IsMeasured w (poll_convert w)
unfolding poll_convert parasite_pullup strong_pullup
convert-IsMeasured w = then-IsMeasured (ground arith) (issue-IsMeasured _ 0x44 wait)

request-IsMeasured : (w : World) → IsMeasured w (poll_request w)
unfolding poll_request parasite_pullup strong_pullup
request-IsMeasured w = then-IsMeasured (ground arith) (issue-IsMeasured _ 0xbe read)

decode-IsMeasured : (w : World) → IsMeasured w (poll_decode w)
unfolding poll_decode report decode_scratchpad
decode-IsMeasured w = then-IsMeasured (ground arith) (finish-IsMeasured _)

state-IsMeasured : (s : State) (w : World) → IsMeasured w (poll_state s w)
unfolding poll_state poll_start read_data start_wait reset_bus parasite_pullup strong_pullup
state-IsMeasured idle w = ground arith
state-IsMeasured start w = ground arith
state-IsMeasured convert w = convert-IsMeasured w
state-IsMeasured wait w = ground arith
state-IsMeasured continue w = ground arith
state-IsMeasured request w = request-IsMeasured w
state-IsMeasured read w = ground arith
state-IsMeasured decode w = decode-IsMeasured w

op_done-IsMeasured : (w : World) → IsMeasured w (op_done w).0
unfolding op_done
op_done-IsMeasured w = ground arith

pub poll-IsMeasured : (w : World) → IsMeasured w (poll w)
unfolding poll
poll-IsMeasured w =
    elim (Bool-cases (search_active w || not w.owner.res.finished || not w.owner.txn.finished)) [
      | inl e ↦ rw e (ground arith)
      | inr e ↦ elim (Bool-cases (op_done w).1) [
        | inl d ↦
            rw (e, d)
              (then-IsMeasured (op_done-IsMeasured w)
                (state-IsMeasured (op_done w).0.owner.ctx.current_state (op_done w).0))
        | inr d ↦ rw (e, d) (op_done-IsMeasured w)
      ]
    ]

-- Only the transaction goes on.
pub record IsTransacted (w w' : World) : Type 0 where
  pub search_kept : w'.search ≡ w.search
  pub res_kept : w'.owner.res ≡ w.owner.res
  pub state_kept : w'.owner.ctx.current_state ≡ w.owner.ctx.current_state
  pub scan_kept : w'.owner.ctx.scan_mode ≡ w.owner.ctx.scan_mode

phase-IsTransacted : (phase : TxnPhase) (w : World) → IsTransacted w (txn_poll_phase phase w).0
unfolding txn_poll_phase txn_switch txn_after_write txn_decode_read op_done write_slots read_data
    strong_pullup start_wait
phase-IsTransacted TxnPhase.reset w = ground arith
phase-IsTransacted TxnPhase.write w = ground arith
phase-IsTransacted TxnPhase.read w = ground arith
phase-IsTransacted TxnPhase.wait w = ground arith
phase-IsTransacted TxnPhase.done w = ground arith

pub txn-IsTransacted : (w : World) → IsTransacted w (txn_poll w).0
unfolding txn_poll
txn-IsTransacted w = ground (arith, phase-IsTransacted w.owner.txn.phase w)

phase_finished :
    (phase : TxnPhase) (w : World)
    → (txn_poll_phase phase w).1 ≡ true
    → (txn_poll_phase phase w).0.owner.txn.finished ≡ true
unfolding txn_poll_phase
phase_finished TxnPhase.reset w h = ground arith
phase_finished TxnPhase.write w h = ground arith
phase_finished TxnPhase.read w h = ground arith
phase_finished TxnPhase.wait w h = ground arith
phase_finished TxnPhase.done w h = refl

-- A poll that answers 1 has finished the transaction.
pub txn_finished : (w : World) → (txn_poll w).1 ≡ true → (txn_poll w).0.owner.txn.finished ≡ true
unfolding txn_poll
txn_finished w h = ground (arith, phase_finished w.owner.txn.phase w)

-- A poll of a command: what it leaves alone, and that an answer of 1 finds the transaction finished.
pub record IsCommandPoll (w : World) (polled : World × Bool) : Type 0 where
  pub kept : IsTransacted w polled.0
  pub finishes : polled.1 ≡ true → polled.0.owner.txn.finished ≡ true

pub txn-IsCommandPoll : (w : World) → IsCommandPoll w (txn_poll w)
txn-IsCommandPoll w = record { kept = txn-IsTransacted w; finishes = txn_finished w }

pub rom-IsCommandPoll : (w : World) → IsCommandPoll w (read_rom_poll w)
unfolding read_rom_poll txn_copy_out
rom-IsCommandPoll w =
    let t = txn-IsTransacted w in
    let f = txn_finished w in record { kept = ground (arith, t); finishes = λ h. ground (arith, f) }

pub scratchpad-IsCommandPoll : (w : World) → IsCommandPoll w (read_scratchpad_poll w)
unfolding read_scratchpad_poll take_scratchpad txn_copy_out
scratchpad-IsCommandPoll w =
    let t = txn-IsTransacted w in
    let f = txn_finished w in record { kept = ground (arith, t); finishes = λ h. ground (arith, f) }

pub parasite-IsCommandPoll : (w : World) → IsCommandPoll w (detect_parasite_poll w)
unfolding detect_parasite_poll
parasite-IsCommandPoll w =
    let t = txn-IsTransacted w in
    let f = txn_finished w in record { kept = ground (arith, t); finishes = λ h. ground (arith, f) }
