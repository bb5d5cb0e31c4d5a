-- ===== src/OneWire/Frame.antt =====
-- What a poll of the search leaves alone: the registered sink; and what it finds at its end.
use stm32_async_1wire.Prelude.{ℕ, ◌+◌, true, ◌≡◌, refl, arith}
use stm32_async_1wire.Wire.{u8}
use stm32_async_1wire.OneWire.{
  Phase, Bus, reset, cmd, read_pair, write_read, write_dir, done, search_advance_bit,
  search_next_pass, search_accept, search_leaf, search_switch, search_poll, search_poll_phase,
  write_slots, write_bit, write_then_read, read_pair_bits, reset_bus, op_done, call_sink,
}

module _ {S : Type 0} where
  advance_sink :
      (b : Bus S) (id_bit cmp_bit : ℕ)
      → (search_advance_bit b id_bit cmp_bit).search.sink ≡ b.search.sink
  unfolding search_advance_bit write_then_read write_bit write_slots
  advance_sink b id_bit cmp_bit = ground arith

  next_pass_sink : (b : Bus S) → (search_next_pass b).search.sink ≡ b.search.sink
  unfolding search_next_pass reset_bus
  next_pass_sink b = ground arith

  accept_sink : (b : Bus S) → (search_accept b).search.sink ≡ b.search.sink
  unfolding search_accept
  accept_sink b = ground (
    arith,
    next_pass_sink (record b {
      search = record (b.search) { found = u8 (b.search.found + 1) };
      owner = (call_sink b.search.sink b.search.rom b.owner).0;
    }),
  )

  leaf_sink : (b : Bus S) → (search_leaf b).search.sink ≡ b.search.sink
  unfolding search_leaf
  leaf_sink b =
      let b' = record b {
        search = record (b.search) {
          id_bit_number = u8 (b.search.id_bit_number + 1);
          last_discrepancy = b.search.last_zero;
        };
      } in
      ground (arith, accept_sink b', next_pass_sink b')

  switch_sink : (phase : Phase) (b : Bus S) → (search_switch phase b).search.sink ≡ b.search.sink
  unfolding search_switch write_slots read_pair_bits
  switch_sink reset b = ground arith
  switch_sink cmd b = ground arith
  switch_sink read_pair b = advance_sink b _ _
  switch_sink write_read b =
      advance_sink
        (record b {
          search = record (b.search) { id_bit_number = u8 (b.search.id_bit_number + 1) };
        })
        _ _
  switch_sink write_dir b = leaf_sink b
  switch_sink done b = refl

  poll_phase_sink :
      (phase : Phase) (b : Bus S) → (search_poll_phase phase b).0.search.sink ≡ b.search.sink
  unfolding search_poll_phase op_done
  poll_phase_sink done b = refl
  poll_phase_sink reset b = ground (arith, switch_sink reset (op_done b).0)
  poll_phase_sink cmd b = ground (arith, switch_sink cmd (op_done b).0)
  poll_phase_sink read_pair b = ground (arith, switch_sink read_pair (op_done b).0)
  poll_phase_sink write_read b = ground (arith, switch_sink write_read (op_done b).0)
  poll_phase_sink write_dir b = ground (arith, switch_sink write_dir (op_done b).0)

  pub search_poll_sink : (b : Bus S) → (search_poll b).0.search.sink ≡ b.search.sink
  unfolding search_poll
  search_poll_sink b = ground (arith, poll_phase_sink b.search.phase b)

  -- A poll of a finished search changes nothing.
  pub search_poll_finished : (b : Bus S) → b.search.finished ≡ true → (search_poll b).0 ≡ b
  unfolding search_poll
  search_poll_finished b h = ground arith

  phase_finished :
      (phase : Phase) (b : Bus S)
      → (search_poll_phase phase b).1 ≡ true
      → (search_poll_phase phase b).0.search.finished ≡ true
  unfolding search_poll_phase
  phase_finished reset b h = ground arith
  phase_finished cmd b h = ground arith
  phase_finished read_pair b h = ground arith
  phase_finished write_read b h = ground arith
  phase_finished write_dir b h = ground arith
  phase_finished done b h = refl

  -- A poll of the search that answers 1 finds it finished.
  pub search_finished :
      (b : Bus S) → (search_poll b).1 ≡ true → (search_poll b).0.search.finished ≡ true
  unfolding search_poll
  search_finished b h = ground (arith, phase_finished b.search.phase b)
