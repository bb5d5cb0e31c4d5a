-- ===== src/Ds2431/Progress.antt =====
-- Every operation ends: `ds2431_poll`, with the timer completing what was scheduled before each poll.
use stm32_async_1wire.Prelude.{ℕ, zero, suc, ◌≤◌, ◌<◌, ◌⊎◌, inl, inr, true, ◌≡◌, refl, arith}
use stm32_async_1wire.Port
use stm32_async_1wire.OneWire.{op_done, write_slots, read_data, strong_pullup, start_wait}
use stm32_async_1wire.Ds2431.Context.{Phase, World, reset, cmd, read, wait, done, idle}
use stm32_async_1wire.Ds2431.Txn.{
  poll, poll_phase, poll_switch, send_command, after_command, take_answer, parasite_pullup,
}

-- The timer reaches its update event.
abbrev pub complete_op : World → World
complete_op w = record w { port = record (w.port) { uif = true } }

-- `n` polls, each after its operation completed.
unfoldable pub settle : ℕ → World → World
settle zero w = w
settle (suc n) w = settle n (poll (complete_op w)).0

-- The polls that a phase of a running operation has left.
unfoldable pub polls_left : Phase → ℕ
polls_left reset = 5
polls_left cmd = 4
polls_left wait = 3
polls_left read = 2
polls_left done = 1
polls_left idle = 0

phase_progress :
    (phase : Phase) (w : World)
    → w.port.uif ≡ true
    → 0 < polls_left phase
    → ((poll_phase phase w).0.owner.finished ≡ true)
      ⊎ ((0 < polls_left (poll_phase phase w).0.owner.phase)
          × (polls_left (poll_phase phase w).0.owner.phase < polls_left phase))
unfolding poll_phase poll_switch send_command after_command take_answer parasite_pullup op_done
    Port.bus_done write_slots read_data strong_pullup start_wait polls_left
phase_progress reset w u h = ground arith
phase_progress cmd w u h = ground arith
phase_progress wait w u h = ground arith
phase_progress read w u h = ground arith
phase_progress done w u h = inl refl
phase_progress idle w u h = absurd (omega arith)

poll_progress :
    (w : World)
    → w.port.uif ≡ true
    → 0 < polls_left w.owner.phase
    → ((poll w).0.owner.finished ≡ true)
      ⊎ ((0 < polls_left (poll w).0.owner.phase)
          × (polls_left (poll w).0.owner.phase < polls_left w.owner.phase))
unfolding poll
poll_progress w u h = ground (arith, phase_progress w.owner.phase w u h)

poll_finished : (w : World) → w.owner.finished ≡ true → (poll w).0 ≡ w
unfolding poll
poll_finished w h = ground arith

settled : (n : ℕ) (w : World) → w.owner.finished ≡ true → (settle n w).owner.finished ≡ true
unfolding settle
settled zero w h = h
settled (suc n) w h = settled n _ (rw (poll_finished (complete_op w) h) h)

-- Whatever the bus answers, an operation in one of its five running phases is finished after at most
-- as many polls that find their operation completed as the phase has left, five from the reset on.
pub settle-finished :
    (n : ℕ) (w : World)
    → 0 < polls_left w.owner.phase
    → polls_left w.owner.phase ≤ n
    → (settle n w).owner.finished ≡ true
unfolding settle
settle-finished zero w p h = absurd (omega arith)
settle-finished (suc n) w p h = elim (poll_progress (complete_op w) refl p) [
  | inl f ↦ settled n _ f
  | inr l ↦ settle-finished n _ l.0 (omega arith)
]
