-- ===== src/Ds2431/Txn.antt =====
-- The operation engine: src/ds2431_txn.c.
use stm32_async_1wire.Prelude.{
  ℕ, zero, suc, ◌+◌, ◌-◌, ◌*◌, Bool, true, false, not, ◌&&◌, ◌||◌, List, ◌∷◌, Option, get_or, set,
  take, leb, ◌==◌, if◌then◌else◌, bit_and, bit_or,
}
use stm32_async_1wire.Wire.{
  Build, put_byte, encode_match_rom, encode_skip_rom, encode_bytes, decode_pulses, release_pulse,
  bits_per_byte, u8, crc16,
}
use stm32_async_1wire.Port
use stm32_async_1wire.OneWire.{
  search_active, reset_bus, op_done, has_presence, write_slots, read_data, strong_pullup,
  start_wait,
}
use stm32_async_1wire.Ds2431.Context.{
  Phase, Ctx, World, put, is_parked, cap_view, reset, cmd, read, wait, done, idle, read_scratchpad,
  copy_scratchpad, tprog_us, copy_status_ok,
}

-- `ds2431_can_start`.
unfoldable pub can_start : World → Bool
can_start w = is_parked w.owner.phase && not (search_active w)

-- The two address bytes of `ds2431_build`, with the count of bytes.
unfoldable pub put_address : Ctx → ℕ → Build × ℕ → Build × ℕ
put_address c command (p, bytes) =
    if not (command == read_scratchpad)
    then (put_byte (put_byte p c.addr_lo) c.addr_hi, u8 (u8 (bytes + 1) + 1))
    else (p, bytes)

-- The end of `ds2431_build`: the E/S byte of Copy Scratchpad, or the payload.
unfoldable pub put_payload : Ctx → ℕ → Build × ℕ → Build × ℕ
put_payload c command (p, bytes) =
    if command == copy_scratchpad
    then (put_byte p c.es, u8 (bytes + 1))
    else (let (q, n) = encode_bytes p c.payload c.plen in (q, u8 (bytes + n)))

-- `ds2431_build`: the context with its table, and the slots.
unfoldable pub build : Ctx → ℕ → Ctx × ℕ
build c command =
    let start : Build = record { table = c.u; cursor = 0 } in
    let (p0, n0) =
      if c.address_mode then encode_match_rom start c.selected_rom else encode_skip_rom start in
    let (p, bytes) =
      put_payload c command (put_address c command (put_byte p0 command, u8 (n0 + 1))) in
    let slots = u8 (bytes * bits_per_byte) in
    (record c { u = set p.table slots release_pulse }, slots)

-- `ds2431_start`, with its answer.
unfoldable pub start : World → ℕ → Option (List ℕ) → World × Bool
start w command out =
    if not (can_start w)
    then (w, false)
    else (let w1 =
          strong_pullup
            (put w (record (w.owner) {
              command = command;
              out = out;
              ok = false;
              finished = false;
              echo = false;
            }))
            false in
        (reset_bus (put w1 (record (w1.owner) { phase = reset })) Port.driver_capture, true))

-- `ds2431_scratchpad_data_len`.
unfoldable pub scratchpad_data_len : List ℕ → ℕ
scratchpad_data_len frame =
    let last = u8 (bit_and (get_or frame 2 0) 7 + 1) in
    let first = bit_and (get_or frame 0 0) 7 in if leb last first then 0 else u8 (last - first)

-- `ds2431_scratchpad_crc_ok`.
unfoldable pub scratchpad_crc_ok : List ℕ → ℕ → Bool
scratchpad_crc_ok frame n =
    let crc_in = read_scratchpad ∷ take (3 + n) frame in
    let expected = 65535 - crc16 crc_in (u8 (4 + n)) in
    bit_or (get_or frame (3 + n) 0) (get_or frame (4 + n) 0 * 256) == expected

-- The first `n` bytes read back are the first `n` of the payload.
unfoldable pub same_payload : ℕ → List ℕ → List ℕ → Bool
same_payload zero raw payload = true
same_payload (suc n) raw payload =
    same_payload n raw payload && get_or raw (3 + n) 0 == get_or payload n 0

-- The echo checks of phase READ, for a reply of `n` data bytes.
unfoldable pub echo_ok : Ctx → ℕ → Bool
echo_ok c n =
    if not (get_or c.raw 0 0 == c.addr_lo)
      || not (get_or c.raw 1 0 == c.addr_hi)
      || not (bit_and (get_or c.raw 2 0) 7 == c.es)
    then false
    else if not (bit_and (get_or c.raw 2 0) 0x20 == 0)
    then false
    else same_payload n c.raw c.payload

-- Whether phase READ sets the success flag, for a decoded answer.
unfoldable pub read_ok : Ctx → Bool
read_ok c =
    if c.command == copy_scratchpad
    then c.ok || get_or c.raw 0 0 == copy_status_ok
    else if c.command == read_scratchpad
    then (let n = scratchpad_data_len c.raw in
        if n == 0 || not (scratchpad_crc_ok c.raw n)
        then c.ok
        else if c.echo && c.pending
        then c.ok || echo_ok c n
        else true)
    else true

-- The strong pull-up where the bus is parasite-powered.
unfoldable pub parasite_pullup : World → Bool → World
parasite_pullup w on = if w.owner.parasite then strong_pullup w on else w

abbrev pub set_phase : World → Phase → World
set_phase w phase = put w (record (w.owner) { phase = phase })

-- `ds2431_poll` in phase RESET, with a device present.
unfoldable pub send_command : World → World
send_command w =
    let w1 = parasite_pullup w true in
    let (c, slots) = build w1.owner w1.owner.command in
    set_phase (write_slots (put w1 c) c.u slots).0 cmd

-- `ds2431_poll` in phase CMD.
unfoldable pub after_command : World → World
after_command w =
    if w.owner.command == copy_scratchpad
    then set_phase (start_wait w tprog_us) wait
    else if not (w.owner.len == 0)
    then set_phase (read_data (parasite_pullup w false) Port.driver_pulse w.owner.len).0 read
    else (let w' = parasite_pullup w false in
        put w' (record (w'.owner) { ok = true; phase = done }))

-- `ds2431_poll` in phase READ.
unfoldable pub take_answer : World → World
take_answer w =
    let c = record (w.owner) { raw = decode_pulses w.owner.raw w.owner.u w.owner.len } in
    put w (record c { ok = read_ok c; phase = done })

-- The `switch` of `ds2431_poll`.
unfoldable pub poll_switch : Phase → World → World
poll_switch reset w =
    if not (has_presence w (cap_view w.owner.u)) then set_phase w done else send_command w
poll_switch cmd w = after_command w
poll_switch read w = take_answer w
poll_switch wait w =
    set_phase (read_data (strong_pullup w false) Port.driver_pulse w.owner.len).0 read
poll_switch done w = w
poll_switch idle w = w

-- `ds2431_poll` of a running operation, by its phase.
unfoldable pub poll_phase : Phase → World → World × Bool
poll_phase done w = (put w (record (w.owner) { finished = true }), true)
poll_phase phase w =
    let (w', is_done) = op_done w in
    if not is_done then (w', false) else (poll_switch phase w', false)

-- `ds2431_poll`, which is also `ds2431_write_scratchpad_poll` and `ds2431_copy_scratchpad_poll`.
unfoldable pub poll : World → World × Bool
poll w = if w.owner.finished then (w, true) else poll_phase w.owner.phase w
