-- ===== src/OneWire.antt =====
-- The bus primitives and the search engine of src/onewire.c, with `ow_op_done` of src/ow_glue.h. A
-- `Bus` holds the port, the static search context, the search's two capture buffers and the state of
-- the driver that owns the bus, which a search callback may change. Flag bits are Boolean fields.
pub mod Invariant
pub mod Reports
pub mod Frame
pub mod Sends
pub mod Pass
mod Tests
use stm32_async_1wire.Prelude.{
  ℕ, zero, suc, ◌+◌, ◌-◌, ◌*◌, ◌/◌, ◌%◌, ◌^◌, bit_and, bit_or, Bool, true, false, not, ◌&&◌, ◌||◌,
  List, [], ◌∷◌, Option, none, some, get_or, set, replicate, ltb, leb, ◌==◌, if◌then◌else◌,
}
use stm32_async_1wire.Wire.{
  one_pulse, zero_pulse, release_pulse, bits_per_byte, rom_bytes, rom_bits, max_slots,
  max_read_bytes, u8, bit_from_pulse, present, pair_bits, crc8, search_rom,
}
use stm32_async_1wire.Port
use stm32_async_1wire.Port.{Port, Buffer}

-- `onewire_search_phase_t`.
pub data Phase : Type 0 where
  reset cmd read_pair write_read write_dir done : Phase

-- A `onewire_search_sink_t` over the owner's state: non-zero asks the search to stop.
abbrev pub Sink : Type 0 → Type 0
Sink S = List ℕ → S → S × ℕ

-- `onewire_search_ctx_t`.
pub record Search (S : Type 0) : Type 0 where
  pub phase : Phase
  pub command : ℕ
  pub family : ℕ
  pub rom : List ℕ
  pub id_bit_number : ℕ
  pub last_discrepancy : ℕ
  pub last_zero : ℕ
  pub found : ℕ
  pub max_found : ℕ
  pub finished : Bool
  pub prev_leaf_valid : Bool
  pub prev_leaf : List ℕ
  pub sink : Option (Sink S)

pub record Bus (S : Type 0) : Type 0 where
  pub port : Port
  pub search : Search S
  pub pair_pulse : List ℕ
  pub pulse3 : List ℕ
  pub owner : S

-- `search_read_pulse`.
abbrev pub search_read_pulse : List ℕ
search_read_pulse = one_pulse ∷ one_pulse ∷ release_pulse ∷ []

-- `search_cmd_rom`.
abbrev pub search_cmd_rom : List ℕ
search_cmd_rom =
    zero_pulse ∷ zero_pulse ∷ zero_pulse ∷ zero_pulse ∷ one_pulse ∷ one_pulse ∷ one_pulse
    ∷ one_pulse ∷ release_pulse ∷ []

-- `search_cmd_alarm`.
abbrev pub search_cmd_alarm : List ℕ
search_cmd_alarm =
    zero_pulse ∷ zero_pulse ∷ one_pulse ∷ one_pulse ∷ zero_pulse ∷ one_pulse ∷ one_pulse ∷ one_pulse
    ∷ release_pulse ∷ []

-- `memcmp(a, b, n) == 0` over arrays of at least `n` bytes.
unfoldable pub same_bytes : ℕ → List ℕ → List ℕ → Bool
same_bytes zero xs ys = true
same_bytes (suc n) (x ∷ xs) (y ∷ ys) = x == y && same_bytes n xs ys
same_bytes (suc n) xs ys = false

-- The update of the ROM in `onewire_search_advance_bit`.
unfoldable pub write_rom_bit : List ℕ → ℕ → ℕ → List ℕ
write_rom_bit rom number dir =
    let byte_idx = (number - 1) / bits_per_byte in
    let mask = u8 (2 ^ ((number - 1) % bits_per_byte)) in
    let old = get_or rom byte_idx 0 in
    set rom byte_idx (if dir == 0 then bit_and old (255 - mask) else bit_or old mask)

module _ {S : Type 0} where
  -- `onewire_init`, for a timer clock in MHz.
  unfoldable pub init : ℕ → Bus S → Bus S
  init mhz b = record b {
    port = Port.init mhz b.port;
    search = record (b.search) { finished = true };
  }

  -- `onewire_bus_done`, which `ow_op_done` returns in the default build.
  unfoldable pub op_done : Bus S → Bus S × Bool
  op_done b = let (p, is_done) = Port.bus_done b.port in (record b { port = p }, is_done)

  -- `onewire_reset`.
  unfoldable pub reset_bus : Bus S → Buffer → Bus S
  reset_bus b pulses = record b { port = Port.reset b.port pulses }

  -- `ow_has_presence`, over the capture of the last reset.
  unfoldable pub has_presence : Bus S → List ℕ → Bool
  has_presence b cap = present cap (Port.reset_captured b.port)

  -- `onewire_write_slots`.
  unfoldable pub write_slots : Bus S → List ℕ → ℕ → Bus S × Bool
  write_slots b pulses slots =
      if slots == 0 || ltb max_slots slots
      then (b, false)
      else (let (p, ok) = Port.write_slots b.port pulses slots in (record b { port = p }, ok))

  -- `onewire_write_bit`.
  unfoldable pub write_bit : Bus S → ℕ → Bus S × Bool
  write_bit b bit = write_slots b ((if bit == 0 then zero_pulse else one_pulse) ∷ []) 1

  -- `onewire_read_pair`.
  unfoldable pub read_pair_bits : Bus S → Bus S
  read_pair_bits b = record b { port = Port.read_pair b.port Port.search_pair_pulse }

  -- `onewire_write_then_read`.
  unfoldable pub write_then_read : Bus S → ℕ → Bus S
  write_then_read b bit = record b {
    port = Port.write_then_read b.port bit Port.search_pulse3 search_read_pulse;
  }

  -- `onewire_read_data`.
  unfoldable pub read_data : Bus S → Buffer → ℕ → Bus S × Bool
  read_data b dst bytes =
      if bytes == 0 || ltb max_read_bytes bytes
      then (b, false)
      else (let (p, ok) = Port.read_data b.port dst bytes in (record b { port = p }, ok))

  -- `onewire_strong_pullup`.
  unfoldable pub strong_pullup : Bus S → Bool → Bus S
  strong_pullup b on = record b { port = Port.strong_pullup b.port on }

  -- `ow_start_wait`.
  unfoldable pub start_wait : Bus S → ℕ → Bus S
  start_wait b us = record b { port = Port.start_wait b.port us }

  -- `ow_timer_kick`.
  unfoldable pub timer_kick : Bus S → Bus S
  timer_kick b = record b { port = Port.kick b.port }

  -- `onewire_search_active`.
  unfoldable pub search_active : Bus S → Bool
  search_active b = not b.search.finished

  -- `onewire_search_count`.
  unfoldable pub search_count : Bus S → ℕ
  search_count b = b.search.found

  -- The choice of `onewire_search_advance_bit`: the direction, and the position of the last 0 taken
  -- at a discrepancy.
  unfoldable pub direction : Search S → ℕ → ℕ → ℕ × ℕ
  direction c id_bit cmp_bit =
      let byte_idx = (c.id_bit_number - 1) / bits_per_byte in
      let mask = u8 (2 ^ ((c.id_bit_number - 1) % bits_per_byte)) in
      if not (id_bit == cmp_bit)
      then (id_bit, c.last_zero)
      else if ltb c.id_bit_number c.last_discrepancy
      then if bit_and (get_or c.rom byte_idx 0) mask == 0
        then (0, c.id_bit_number)
        else (1, c.last_zero)
      else if c.id_bit_number == c.last_discrepancy
      then (1, c.last_zero)
      else (0, c.id_bit_number)

  -- `onewire_search_advance_bit`.
  unfoldable pub search_advance_bit : Bus S → ℕ → ℕ → Bus S
  search_advance_bit b id_bit cmp_bit =
      let c = b.search in
      if not (id_bit == 0) && not (cmp_bit == 0)
      then record b { search = record c { phase = done } }
      else (let (dir, zero_at) = direction c id_bit cmp_bit in
          let c' = record c {
            rom = write_rom_bit c.rom c.id_bit_number dir;
            last_zero = zero_at;
          } in
          if ltb c.id_bit_number rom_bits
          then record (write_then_read (record b { search = c' }) dir) {
            search = record c' { phase = write_read };
          }
          else record (write_bit (record b { search = c' }) dir).0 {
            search = record c' { phase = write_dir };
          })

  -- `onewire_search_start`.
  unfoldable pub search_start : Bus S → Option (Sink S) → ℕ → ℕ → ℕ → Bus S
  search_start b sink max_devices command family =
      let c = b.search in
      if not c.finished
      then b
      else (let c' = record c {
        rom = replicate rom_bytes 0;
        sink = sink;
        max_found = max_devices;
        found = 0;
        finished = false;
        prev_leaf_valid = false;
        last_discrepancy = 0;
        command = command;
        family = family;
      } in
          if max_devices == 0
          then record b { search = record c' { phase = done } }
          else reset_bus (record b { search = record c' { phase = reset } }) Port.search_pair_pulse)

  -- The call of the sink, where there is one.
  unfoldable pub call_sink : Option (Sink S) → List ℕ → S → S × ℕ
  call_sink none rom s = (s, 0)
  call_sink (some sink) rom s = sink rom s

  abbrev pub set_phase : Bus S → Phase → Bus S
  set_phase b phase = record b { search = record (b.search) { phase = phase } }

  -- `onewire_search_poll` in phase WRITE_DIR, behind the family filter: another pass, unless there is no
  -- other branch or the leaf is the previous one.
  unfoldable pub search_next_pass : Bus S → Bus S
  search_next_pass b =
      let c = b.search in
      if c.last_discrepancy == 0
      then set_phase b done
      else if c.prev_leaf_valid && same_bytes rom_bytes c.prev_leaf c.rom
      then set_phase b done
      else set_phase
          (reset_bus (record b { search = record c { prev_leaf = c.rom; prev_leaf_valid = true } })
            Port.search_pair_pulse)
          reset

  -- `onewire_search_poll` in phase WRITE_DIR: an accepted device is counted and reported.
  unfoldable pub search_accept : Bus S → Bus S
  search_accept b =
      let c = record (b.search) { found = u8 (b.search.found + 1) } in
      let (owner', stop) = call_sink c.sink c.rom b.owner in
      let b' = record b { search = c; owner = owner' } in
      if not (stop == 0)
      then set_phase b' done
      else if leb c.max_found c.found
      then set_phase b' done
      else search_next_pass b'

  -- `onewire_search_poll` in phase WRITE_DIR.
  unfoldable pub search_leaf : Bus S → Bus S
  search_leaf b =
      let c = record (b.search) {
        id_bit_number = u8 (b.search.id_bit_number + 1);
        last_discrepancy = b.search.last_zero;
      } in
      let b' = record b { search = c } in
      if not (crc8 c.rom rom_bytes == 0)
      then set_phase b' done
      else if c.family == 0 || get_or c.rom 0 0 == c.family
      then search_accept b'
      else search_next_pass b'

  -- The `switch` of `onewire_search_poll`, after the scheduled operation completed.
  unfoldable pub search_switch : Phase → Bus S → Bus S
  search_switch reset b =
      if not (has_presence b b.pair_pulse)
      then set_phase b done
      else set_phase
          (write_slots b
            (if b.search.command == search_rom then search_cmd_rom else search_cmd_alarm)
            bits_per_byte).0
          cmd
  search_switch cmd b =
      set_phase
        (read_pair_bits
          (record b { search = record (b.search) { id_bit_number = 1; last_zero = 0 } }))
        read_pair
  search_switch read_pair b =
      let (id_bit, cmp_bit) = pair_bits b.pair_pulse in search_advance_bit b id_bit cmp_bit
  search_switch write_read b =
      search_advance_bit
        (record b {
          search = record (b.search) { id_bit_number = u8 (b.search.id_bit_number + 1) };
        })
        (bit_from_pulse (get_or b.pulse3 1 0)) (bit_from_pulse (get_or b.pulse3 2 0))
  search_switch write_dir b = search_leaf b
  search_switch done b = b

  -- `onewire_search_poll`: the new state, and whether the search is finished.
  unfoldable pub search_poll_phase : Phase → Bus S → Bus S × Bool
  search_poll_phase done b = (record b { search = record (b.search) { finished = true } }, true)
  search_poll_phase phase b =
      let (b', is_done) = op_done b in
      if not is_done then (b', false) else (search_switch phase b', false)

  unfoldable pub search_poll : Bus S → Bus S × Bool
  search_poll b = if b.search.finished then (b, true) else search_poll_phase b.search.phase b
