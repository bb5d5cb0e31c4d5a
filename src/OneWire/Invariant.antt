-- ===== src/OneWire/Invariant.antt =====
-- What holds of the search context between two calls, whatever the bus answers.
use stm32_async_1wire.Prelude.{
  ℕ, ◌+◌, ◌≤◌, ◌<◌, Option, List, length, ◌≡◌, ◌≢◌, refl, arith, length-set,
}
use stm32_async_1wire.Wire.{u8}
use stm32_async_1wire.OneWire.{
  Phase, Sink, Search, Bus, reset, cmd, read_pair, write_read, write_dir, done, direction,
  write_rom_bit, search_advance_bit, search_start, search_next_pass, search_accept, search_leaf,
  search_switch, search_poll, search_poll_phase, write_slots, write_bit, write_then_read,
  read_pair_bits, reset_bus, op_done, call_sink,
}

length-write_rom_bit :
    (rom : List ℕ) (number dir : ℕ) → length (write_rom_bit rom number dir) ≡ length rom
unfolding write_rom_bit
length-write_rom_bit rom number dir = length-set rom _ _

module _ {S : Type 0} where
  -- The parts that no phase changes out of bounds.
  pub record IsBounded (c : Search S) : Type 0 where
    pub rom_size : length c.rom ≡ 8
    pub discrepancy_le : c.last_discrepancy ≤ 64
    pub zero_le : c.last_zero ≤ 64
    pub found_le : c.found ≤ c.max_found
    pub max_byte : c.max_found < 256

  -- In each phase the bit number is one that the phase may use, so the ROM is never indexed behind its
  -- eighth byte; and a search that goes on has room for another device.
  pub record IsValid (c : Search S) : Type 0 where
    pub bounded : IsBounded c
    pub first_bit : c.phase ≡ read_pair → c.id_bit_number ≡ 1
    pub inner_bit : c.phase ≡ write_read → (1 ≤ c.id_bit_number) × (c.id_bit_number < 64)
    pub last_bit : c.phase ≡ write_dir → c.id_bit_number ≡ 64
    pub has_room : c.phase ≢ done → c.found < c.max_found

  direction_le :
      (c : Search S) (id_bit cmp_bit : ℕ)
      → c.id_bit_number ≤ 64
      → c.last_zero ≤ 64
      → (direction c id_bit cmp_bit).1 ≤ 64
  unfolding direction
  direction_le c id_bit cmp_bit n z = ground arith

  advance-IsValid :
      (b : Bus S) (id_bit cmp_bit : ℕ)
      → IsBounded b.search
      → 1 ≤ b.search.id_bit_number
      → b.search.id_bit_number ≤ 64
      → b.search.found < b.search.max_found
      → IsValid (search_advance_bit b id_bit cmp_bit).search
  unfolding search_advance_bit write_then_read write_bit write_slots
  advance-IsValid b id_bit cmp_bit h lo hi room = ground (
    arith,
    direction_le b.search id_bit cmp_bit,
    length-write_rom_bit b.search.rom b.search.id_bit_number (direction b.search id_bit cmp_bit).0,
  )

  -- A started search satisfies the invariant, for any count that fits `uint8_t`.
  pub search_start-IsValid :
      (b : Bus S) (sink : Option (Sink S)) (max_devices command family : ℕ)
      → max_devices < 256
      → IsValid b.search
      → IsValid (search_start b sink max_devices command family).search
  unfolding search_start reset_bus
  search_start-IsValid b sink max_devices command family h v = ground arith

  next_pass-IsValid :
      (b : Bus S)
      → IsBounded b.search
      → b.search.found < b.search.max_found
      → IsValid (search_next_pass b).search
  unfolding search_next_pass reset_bus
  next_pass-IsValid b h room = ground arith

  accept-IsValid :
      (b : Bus S)
      → IsBounded b.search
      → b.search.found < b.search.max_found
      → IsValid (search_accept b).search
  unfolding search_accept
  accept-IsValid b h room = ground (
    arith,
    next_pass-IsValid (record b {
      search = record (b.search) { found = u8 (b.search.found + 1) };
      owner = (call_sink b.search.sink b.search.rom b.owner).0;
    }),
  )

  leaf-IsValid :
      (b : Bus S)
      → IsBounded b.search
      → b.search.found < b.search.max_found
      → IsValid (search_leaf b).search
  unfolding search_leaf
  leaf-IsValid b h room =
      let b' = record b {
        search = record (b.search) {
          id_bit_number = u8 (b.search.id_bit_number + 1);
          last_discrepancy = b.search.last_zero;
        };
      } in
      ground (arith, accept-IsValid b', next_pass-IsValid b')

  switch-IsValid :
      (phase : Phase) (b : Bus S)
      → b.search.phase ≡ phase
      → IsValid b.search
      → IsValid (search_switch phase b).search
  unfolding search_switch write_slots read_pair_bits
  switch-IsValid reset b e v = ground arith
  switch-IsValid cmd b e v = ground arith
  switch-IsValid read_pair b e v =
      advance-IsValid b _ _ v.bounded (omega (arith, v.first_bit e)) (omega (arith, v.first_bit e))
        (v.has_room (λ d. cc))
  switch-IsValid write_read b e v =
      advance-IsValid
        (record b {
          search = record (b.search) { id_bit_number = u8 (b.search.id_bit_number + 1) };
        })
        _ _ (ground arith) (omega (arith, v.inner_bit e)) (omega (arith, v.inner_bit e))
        (v.has_room (λ d. cc))
  switch-IsValid write_dir b e v = leaf-IsValid b v.bounded (v.has_room (λ d. cc))
  switch-IsValid done b e v = v

  poll_phase-IsValid :
      (phase : Phase) (b : Bus S)
      → b.search.phase ≡ phase
      → IsValid b.search
      → IsValid (search_poll_phase phase b).0.search
  unfolding search_poll_phase op_done
  poll_phase-IsValid done b e v = ground arith
  poll_phase-IsValid reset b e v = ground (arith, switch-IsValid reset (op_done b).0 e v)
  poll_phase-IsValid cmd b e v = ground (arith, switch-IsValid cmd (op_done b).0 e v)
  poll_phase-IsValid read_pair b e v = ground (arith, switch-IsValid read_pair (op_done b).0 e v)
  poll_phase-IsValid write_read b e v = ground (arith, switch-IsValid write_read (op_done b).0 e v)
  poll_phase-IsValid write_dir b e v = ground (arith, switch-IsValid write_dir (op_done b).0 e v)

  -- Every poll keeps the invariant, whatever the port's registers and the capture buffers hold.
  pub search_poll-IsValid : (b : Bus S) → IsValid b.search → IsValid (search_poll b).0.search
  unfolding search_poll
  search_poll-IsValid b v = ground (arith, poll_phase-IsValid b.search.phase b refl v)
