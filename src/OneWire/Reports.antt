-- ===== src/OneWire/Reports.antt =====
-- Which devices a search counts and reports, and what a poll leaves alone.
use stm32_async_1wire.Prelude.{ℕ, ◌+◌, ◌⊎◌, inl, false, get_or, ◌≡◌, ◌≢◌, refl, arith}
use stm32_async_1wire.Wire.{u8, crc8, bit_from_pulse}
use stm32_async_1wire.Port
use stm32_async_1wire.OneWire.{
  Phase, Bus, reset, cmd, read_pair, write_read, write_dir, done, search_advance_bit,
  search_next_pass, search_accept, search_leaf, search_switch, search_poll, search_poll_phase,
  write_slots, write_bit, write_then_read, read_pair_bits, reset_bus, op_done, call_sink,
}

module _ {S : Type 0} where
  -- The poll reports no device: the count and the owner are as before.
  pub record IsSilent (b b' : Bus S) : Type 0 where
    pub same_found : b'.search.found ≡ b.search.found
    pub same_owner : b'.owner ≡ b.owner

  -- The poll reports the assembled ROM, which passes its check sum and the family filter: it is counted
  -- once and handed to the sink once.
  pub record IsReport (b b' : Bus S) : Type 0 where
    pub at_leaf : b.search.phase ≡ write_dir
    pub sum_ok : crc8 b.search.rom 8 ≡ 0
    pub family_ok : (b.search.family ≡ 0) ⊎ (get_or b.search.rom 0 0 ≡ b.search.family)
    pub counted : b'.search.found ≡ u8 (b.search.found + 1)
    pub sunk : b'.owner ≡ (call_sink b.search.sink b.search.rom b.owner).0

  advance-IsSilent :
      (b : Bus S) (id_bit cmp_bit : ℕ) → IsSilent b (search_advance_bit b id_bit cmp_bit)
  unfolding search_advance_bit write_then_read write_bit write_slots
  advance-IsSilent b id_bit cmp_bit = ground arith

  next_pass-IsSilent : (b : Bus S) → IsSilent b (search_next_pass b)
  unfolding search_next_pass reset_bus
  next_pass-IsSilent b = ground arith

  accept_found : (b : Bus S) → (search_accept b).search.found ≡ u8 (b.search.found + 1)
  unfolding search_accept
  accept_found b = ground (
    arith,
    next_pass-IsSilent (record b {
      search = record (b.search) { found = u8 (b.search.found + 1) };
      owner = (call_sink b.search.sink b.search.rom b.owner).0;
    }),
  )

  accept_owner :
      (b : Bus S) → (search_accept b).owner ≡ (call_sink b.search.sink b.search.rom b.owner).0
  unfolding search_accept
  accept_owner b = ground (
    arith,
    next_pass-IsSilent (record b {
      search = record (b.search) { found = u8 (b.search.found + 1) };
      owner = (call_sink b.search.sink b.search.rom b.owner).0;
    }),
  )

  leaf_reports :
      (b : Bus S)
      → b.search.phase ≡ write_dir
      → IsSilent b (search_leaf b) ⊎ IsReport b (search_leaf b)
  unfolding search_leaf
  leaf_reports b e =
      let b' = record b {
        search = record (b.search) {
          id_bit_number = u8 (b.search.id_bit_number + 1);
          last_discrepancy = b.search.last_zero;
        };
      } in
      ground (arith, accept_found b', accept_owner b', next_pass-IsSilent b')

  switch_reports :
      (phase : Phase) (b : Bus S)
      → b.search.phase ≡ phase
      → IsSilent b (search_switch phase b) ⊎ IsReport b (search_switch phase b)
  unfolding search_switch write_slots read_pair_bits
  switch_reports reset b e = inl (ground arith)
  switch_reports cmd b e = inl (ground arith)
  switch_reports read_pair b e = inl (advance-IsSilent b _ _)
  switch_reports write_read b e =
      let q =
        advance-IsSilent
          (record b {
            search = record (b.search) { id_bit_number = u8 (b.search.id_bit_number + 1) };
          })
          (bit_from_pulse (get_or b.pulse3 1 0)) (bit_from_pulse (get_or b.pulse3 2 0)) in
      inl (record { same_found = q.same_found; same_owner = q.same_owner })
  switch_reports write_dir b e = leaf_reports b e
  switch_reports done b e = inl (record { same_found = refl; same_owner = refl })

  poll_phase_reports :
      (phase : Phase) (b : Bus S)
      → b.search.phase ≡ phase
      → IsSilent b (search_poll_phase phase b).0 ⊎ IsReport b (search_poll_phase phase b).0
  unfolding search_poll_phase op_done
  poll_phase_reports done b e = inl (record { same_found = refl; same_owner = refl })
  poll_phase_reports reset b e = ground (arith, switch_reports reset (op_done b).0 e)
  poll_phase_reports cmd b e = ground (arith, switch_reports cmd (op_done b).0 e)
  poll_phase_reports read_pair b e = ground (arith, switch_reports read_pair (op_done b).0 e)
  poll_phase_reports write_read b e = ground (arith, switch_reports write_read (op_done b).0 e)
  poll_phase_reports write_dir b e = ground (arith, switch_reports write_dir (op_done b).0 e)

  -- A poll either reports nothing, or reports exactly the ROM of a completed walk whose check sum is
  -- right and whose family is the one asked for, counting it once.
  pub search_poll_reports :
      (b : Bus S) → IsSilent b (search_poll b).0 ⊎ IsReport b (search_poll b).0
  unfolding search_poll
  search_poll_reports b = ground (arith, poll_phase_reports b.search.phase b refl)

  -- While the scheduled operation has not completed, a poll of a running search changes nothing.
  pub search_poll_waits :
      (b : Bus S)
      → b.search.finished ≡ false
      → b.search.phase ≢ done
      → b.port.uif ≡ false
      → search_poll b ≡ (b, false)
  unfolding search_poll search_poll_phase op_done Port.bus_done
  search_poll_waits b f d u = ground arith
