-- ===== src/Ds2431/Samples.antt =====
-- Two states of the DS2431 driver for the tests: a scratchpad read under way, and the driver at rest.
use stm32_async_1wire.Prelude.{true, false, [], ◌∷◌, none, replicate}
use stm32_async_1wire.Port.Samples.{idle_port}
use stm32_async_1wire.OneWire
use stm32_async_1wire.Ds2431.Context.{Phase, World, put}

-- A driver in use: a scratchpad read under way, after a write of two bytes at 16.
abbrev pub reading : World
reading = record {
  port = idle_port;
  search = record {
    phase = OneWire.Phase.done;
    command = 0;
    family = 0;
    rom = replicate 8 0;
    id_bit_number = 0;
    last_discrepancy = 0;
    last_zero = 0;
    found = 0;
    max_found = 0;
    finished = true;
    prev_leaf_valid = false;
    prev_leaf = replicate 8 0;
    sink = none;
  };
  pair_pulse = replicate 2 0;
  pulse3 = replicate 3 0;
  owner = record {
    out = none;
    u = replicate 161 60;
    raw = replicate 13 0;
    phase = Phase.read;
    command = 0xaa;
    addr_lo = 0;
    addr_hi = 0;
    len = 0;
    plen = 1;
    es = 0;
    payload = 0 ∷ replicate 7 9;
    selected_rom = 0x2d ∷ 1 ∷ 2 ∷ 3 ∷ 4 ∷ 5 ∷ 6 ∷ 7 ∷ [];
    address_mode = true;
    parasite = false;
    ok = false;
    finished = false;
    pending = true;
    echo = true;
  };
}

-- The driver at rest, behind that write.
abbrev pub parked : World
parked =
    put reading (record (reading.owner) { phase = Phase.done; finished = true; command = 0x0f })
