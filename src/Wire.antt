-- ===== src/Wire.antt =====
-- The pulse code of the bus: inc/onewire.h (`onewire_bit_from_pulse`, the limits), inc/ow_config.h
-- (pulse durations of the default build), the pure functions of src/onewire.c (`onewire_present`,
-- `onewire_pair_bits`, `onewire_decode_pulses`, `onewire_encode_byte`, `onewire_crc8`,
-- `onewire_crc16`) and the table builders of src/ow_glue.h. A pulse table is a list of durations in
-- microseconds; a builder writes into it at a cursor, as the source does. `uint8_t` results that are
-- 0 or 1 and serve as tests are `Bool`.
pub mod Codec
pub mod Check
mod Tests
use stm32_async_1wire.Prelude.{
  ℕ, zero, suc, ◌+◌, ◌*◌, ◌/◌, ◌^◌, bit_and, bit_or, bit_xor, Bool, true, false, ◌&&◌, List, [],
  ◌∷◌, get_or, set, take, leb, ◌==◌, if◌then◌else◌, ◌%◌, not,
}

abbrev pub one_pulse : ℕ
one_pulse = 5

abbrev pub zero_pulse : ℕ
zero_pulse = 60

abbrev pub guard_band : ℕ
guard_band = 5

abbrev pub short_pulse_max : ℕ
short_pulse_max = 10

abbrev pub release_pulse : ℕ
release_pulse = 0

abbrev pub bits_per_byte : ℕ
bits_per_byte = 8

abbrev pub rom_bytes : ℕ
rom_bytes = 8

abbrev pub rom_bits : ℕ
rom_bits = 64

abbrev pub max_slots : ℕ
max_slots = 256

abbrev pub max_read_bytes : ℕ
max_read_bytes = 32

abbrev pub search_rom : ℕ
search_rom = 0xf0

abbrev pub alarm_search : ℕ
alarm_search = 0xec

abbrev pub match_rom : ℕ
match_rom = 0x55

abbrev pub skip_rom : ℕ
skip_rom = 0xcc

abbrev pub u8 : ℕ → ℕ
u8 n = n % 2 ^ 8

abbrev pub u16 : ℕ → ℕ
u16 n = n % 2 ^ 16

abbrev pub u32 : ℕ → ℕ
u32 n = n % 2 ^ 32

-- `onewire_bit_from_pulse`: a short pulse is a 1.
unfoldable pub bit_from_pulse : ℕ → ℕ
bit_from_pulse dur = if leb dur short_pulse_max then 1 else 0

-- The windows of the reset pulse and of the presence pulse, in microseconds.
abbrev pub reset_pulse_min : ℕ
reset_pulse_min = 480

abbrev pub reset_pulse_max : ℕ
reset_pulse_max = 540

abbrev pub presence_pulse_min : ℕ
presence_pulse_min = reset_pulse_min + 15 + 60

abbrev pub presence_pulse_max : ℕ
presence_pulse_max = reset_pulse_max + 60 + 240

abbrev pub capture_buf_size : ℕ
capture_buf_size = 2

-- `onewire_present`, over the two entries of the capture and the number of captured edges.
unfoldable pub present : List ℕ → ℕ → Bool
present pulses captured =
    if captured == capture_buf_size
    then leb reset_pulse_min (get_or pulses 0 0)
      && leb (get_or pulses 0 0) reset_pulse_max
      && leb presence_pulse_min (get_or pulses 1 0)
      && leb (get_or pulses 1 0) presence_pulse_max
    else false

-- `onewire_pair_bits`.
unfoldable pub pair_bits : List ℕ → ℕ × ℕ
pair_bits pulses = (bit_from_pulse (get_or pulses 0 0), bit_from_pulse (get_or pulses 1 0))

-- The loop of `onewire_encode_byte` at bit `i`, with `left` bits to go, into `out` at cursor `p`.
unfoldable pub encode_bits : ℕ → ℕ → List ℕ → ℕ → ℕ → List ℕ
encode_bits zero i out p byte = out
encode_bits (suc left) i out p byte =
    encode_bits left (i + 1)
      (set out (p + i) (if bit_and byte (2 ^ i) == 0 then zero_pulse else one_pulse)) p byte

-- `onewire_encode_byte`.
unfoldable pub encode_byte : List ℕ → ℕ → ℕ → List ℕ
unfolding encode_bits
encode_byte out p byte = encode_bits bits_per_byte 0 out p byte

-- A pulse table that is being built, with the builder's cursor into it.
pub record Build : Type 0 where
  pub table : List ℕ
  pub cursor : ℕ

-- `onewire_encode_byte` at the cursor, and the cursor's advance that follows it.
unfoldable pub put_byte : Build → ℕ → Build
put_byte b byte = record {
  table = encode_byte b.table b.cursor byte;
  cursor = b.cursor + bits_per_byte;
}

-- The loop of `ow_encode_bytes`.
unfoldable pub put_bytes : Build → List ℕ → Build
put_bytes b [] = b
put_bytes b (byte ∷ bytes) = put_bytes (put_byte b byte) bytes

-- `ow_encode_bytes`, with the count that it returns.
unfoldable pub encode_bytes : Build → List ℕ → ℕ → Build × ℕ
encode_bytes b src n = (put_bytes b (take n src), n)

-- `ow_encode_skip_rom`.
unfoldable pub encode_skip_rom : Build → Build × ℕ
encode_skip_rom b = (put_byte b skip_rom, 1)

-- `ow_encode_match_rom`.
unfoldable pub encode_match_rom : Build → List ℕ → Build × ℕ
encode_match_rom b rom =
    let (b', n) = encode_bytes (put_byte b match_rom) rom rom_bytes in (b', u8 (1 + n))

-- The inner loop of `onewire_decode_pulses`: `value` gathers the bits of the byte whose pulses
-- start at entry `base`.
unfoldable pub decode_bits : ℕ → ℕ → ℕ → List ℕ → ℕ → ℕ
decode_bits zero bit value pulse base = value
decode_bits (suc left) bit value pulse base =
    decode_bits left (bit + 1)
      (bit_or value (u8 (bit_from_pulse (get_or pulse (base + bit) 0) * 2 ^ bit))) pulse base

-- The outer loop where `dst` and `pulse` are different arrays.
unfoldable pub decode_pulses_from : ℕ → ℕ → List ℕ → List ℕ → List ℕ
decode_pulses_from zero byte dst pulse = dst
decode_pulses_from (suc left) byte dst pulse =
    decode_pulses_from left (byte + 1)
      (set dst byte (decode_bits bits_per_byte 0 0 pulse (byte * bits_per_byte))) pulse

-- `onewire_decode_pulses` into an array that does not overlap the pulses.
unfoldable pub decode_pulses : List ℕ → List ℕ → ℕ → List ℕ
unfolding decode_pulses_from
decode_pulses dst pulse nbytes = decode_pulses_from nbytes 0 dst pulse

-- The outer loop where `dst` and `pulse` are one array, as `decode_scratchpad` calls it: byte `n`
-- of the result replaces pulse `n`.
unfoldable pub decode_overlaid_from : ℕ → ℕ → List ℕ → List ℕ
decode_overlaid_from zero byte buf = buf
decode_overlaid_from (suc left) byte buf =
    decode_overlaid_from left (byte + 1)
      (set buf byte (decode_bits bits_per_byte 0 0 buf (byte * bits_per_byte)))

-- `onewire_decode_pulses` with both arguments the same storage.
unfoldable pub decode_overlaid : List ℕ → ℕ → List ℕ
unfolding decode_overlaid_from
decode_overlaid buf nbytes = decode_overlaid_from nbytes 0 buf

-- The inner loop of `onewire_crc8`.
unfoldable pub crc8_bits : ℕ → ℕ → ℕ → ℕ
crc8_bits zero crc in_byte = crc
crc8_bits (suc left) crc in_byte =
    let mix = bit_and (bit_xor crc in_byte) 1 in
    crc8_bits left (if mix == 0 then crc / 2 else bit_xor (crc / 2) 0x8c) (in_byte / 2)

-- The outer loop of `onewire_crc8`.
unfoldable pub crc8_from : ℕ → List ℕ → ℕ
crc8_from crc [] = crc
crc8_from crc (byte ∷ data') = crc8_from (crc8_bits bits_per_byte crc byte) data'

-- `onewire_crc8`.
unfoldable pub crc8 : List ℕ → ℕ → ℕ
unfolding crc8_from
crc8 data' len = crc8_from 0 (take len data')

-- The inner loop of `onewire_crc16`.
unfoldable pub crc16_bits : ℕ → ℕ → ℕ
crc16_bits zero crc = crc
crc16_bits (suc left) crc =
    crc16_bits left (if bit_and crc 1 == 0 then crc / 2 else u16 (bit_xor (crc / 2) 0xa001))

-- The outer loop of `onewire_crc16`.
unfoldable pub crc16_from : ℕ → List ℕ → ℕ
crc16_from crc [] = crc
crc16_from crc (byte ∷ data') = crc16_from (crc16_bits bits_per_byte (bit_xor crc byte)) data'

-- `onewire_crc16`.
unfoldable pub crc16 : List ℕ → ℕ → ℕ
unfolding crc16_from
crc16 data' len = crc16_from 0 (take len data')
