-- ===== src/Ds18b20/Samples.antt =====
-- States of the driver that the runs of the other modules start from.
use stm32_async_1wire.Prelude.{true, false, [], ◌∷◌, none, replicate}
use stm32_async_1wire.OneWire
use stm32_async_1wire.Port.Samples.{idle_port}
use stm32_async_1wire.Ds18b20.Context.{State, TxnPhase, ResPhase, World}

-- The statics at reset, but for a transaction that holds a Write Scratchpad.
abbrev pub cold : World
cold = record {
  port = idle_port;
  search = record {
    phase = OneWire.Phase.reset;
    command = 0;
    family = 0;
    rom = replicate 8 0;
    id_bit_number = 0;
    last_discrepancy = 0;
    last_zero = 0;
    found = 0;
    max_found = 0;
    finished = false;
    prev_leaf_valid = false;
    prev_leaf = replicate 8 0;
    sink = none;
  };
  pair_pulse = replicate 2 0;
  pulse3 = replicate 3 0;
  owner = record {
    ctx = record {
      storage = replicate 72 0;
      current_state = State.idle;
      address_mode = true;
      scan_mode = false;
      parasite = false;
      scan_index = 0;
      selected_rom = 0x28 ∷ 1 ∷ 2 ∷ 3 ∷ 4 ∷ 5 ∷ 6 ∷ 7 ∷ [];
      resolution = 0;
    };
    txn = record {
      out = none;
      wait_us = 0;
      phase = TxnPhase.reset;
      command = 0x4e;
      payload = 75 ∷ 70 ∷ 0x7f ∷ [];
      payload_len = 3;
      read_bytes = 0;
      slots = 0;
      raw = replicate 9 0;
      bare = false;
      ok = false;
      finished = false;
    };
    res = record {
      phase = ResPhase.reset;
      pending_res = 0;
      slots = 0;
      applied = false;
      finished = false;
    };
    pulses = replicate 105 0;
    dev_roms = replicate 8 (replicate 8 0);
    dev_count = 0;
    user_sink = none;
    log = [];
  };
}

-- A free driver that has stored two devices.
abbrev pub fleet : World
fleet = record cold {
  search = record (cold.search) { finished = true };
  owner = record (cold.owner) {
    txn = record (cold.owner.txn) { finished = true };
    res = record (cold.owner.res) { finished = true };
    ctx = record (cold.owner.ctx) { resolution = 12 };
    dev_roms =
        (0x28 ∷ 1 ∷ 2 ∷ 3 ∷ 4 ∷ 5 ∷ 6 ∷ 7 ∷ [])
        ∷ (0x28 ∷ 9 ∷ 2 ∷ 3 ∷ 4 ∷ 5 ∷ 6 ∷ 8 ∷ [])
        ∷ replicate 6 (replicate 8 0);
    dev_count = 2;
  };
}
