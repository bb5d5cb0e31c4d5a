-- ===== src/Recorder/Records.antt =====
-- The operations on records and write jobs: examples/9_multi/main.c from `decode_temp` to `write_abort`, and
-- the loop of `evaluate` over the sensors.
use stm32_async_1wire.Prelude.{
  ℕ, zero, suc, ◌+◌, ◌-◌, ◌/◌, ◌%◌, ◌^◌, bit_and, Bool, true, false, not, ◌&&◌, ◌||◌, List, [], ◌∷◌,
  get_or, set, ltb, leb, ◌==◌, if◌then◌else◌,
}
use stm32_async_1wire.Prelude.Int.{ℤ, pos, negsuc, sub_ℕ, ◌+ℤ◌, ◌*ℤ◌, ltb_ℤ}
use stm32_async_1wire.Wire.{u8, u32, crc8}
use stm32_async_1wire.OneWire.{same_bytes}
use stm32_async_1wire.Ds18b20.Context.{temp_error_generic, temp_error_crc_fail}
use stm32_async_1wire.Recorder.{
  waiting, stop, Slot, Job, Recorder, rec_addr, rom_addr, magic, no_slot, no_job,
}

-- The casts to `int8_t` and back, and the division by ten, which rounds towards zero.
abbrev pub int8 : ℕ → ℤ
int8 b = if ltb b 128 then pos b else negsuc (255 - b)

unfoldable pub byte_of : ℤ → ℕ
byte_of (pos n) = n % 256
byte_of (negsuc n) = 255 - n % 256

unfoldable pub quot10 : ℤ → ℤ
quot10 (pos n) = pos (n / 10)
quot10 (negsuc n) = sub_ℕ 0 ((n + 1) / 10)

unfoldable pub rem10 : ℤ → ℤ
rem10 (pos n) = pos (n % 10)
rem10 (negsuc n) = sub_ℕ 0 ((n + 1) % 10)

-- `decode_temp`.
unfoldable pub decode_temp : List ℕ → ℤ
decode_temp image = int8 (get_or image 4 0) *ℤ pos 10 +ℤ int8 (get_or image 5 0)

-- The image that `push_record` builds.
unfoldable pub record_image : ℕ → ℕ → ℤ → ℕ → List ℕ
record_image slot counter temp idx =
    let head =
      magic slot
      ∷ 2
      ∷ 3
      ∷ u8 (counter + 1)
      ∷ byte_of (quot10 temp)
      ∷ byte_of (rem10 temp)
      ∷ idx
      ∷ [] in
    magic slot
    ∷ 2
    ∷ 3
    ∷ u8 (counter + 1)
    ∷ byte_of (quot10 temp)
    ∷ byte_of (rem10 temp)
    ∷ idx
    ∷ crc8 head 7
    ∷ []

-- The checks of `boot_load_record`, on a block that was read.
unfoldable pub record_ok : ℕ → List ℕ → Bool
record_ok slot b =
    get_or b 0 0 == magic slot
    && get_or b 1 0 == 2
    && crc8 b 7 == get_or b 7 0
    && not (bit_and (get_or b 2 0) 1 == 0)
    && not (ltb_ℤ (int8 (get_or b 5 0)) (negsuc 8) || ltb_ℤ (pos 9) (int8 (get_or b 5 0)))

module _ {D : Type 0} where
  -- `time_reached`: the sign of a difference modulo 2^32.
  unfoldable pub time_reached : Recorder D → ℕ → Bool
  time_reached r when = ltb (u32 (r.now + 2 ^ 32 - when)) (2 ^ 31)

  -- `expired`.
  unfoldable pub expired : Recorder D → Bool
  expired r = time_reached r r.deadline_ms

  -- `go_wait`.
  unfoldable pub go_wait : Recorder D → Recorder D
  go_wait r = record r { next_ms = u32 (r.now + 2000); state = waiting }

  abbrev pub slot_at : Recorder D → ℕ → Slot
  slot_at r slot = get_or r.slots slot no_slot

  -- `boot_load_record`.
  unfoldable pub boot_load_record : Recorder D → ℕ → Recorder D
  boot_load_record r slot =
      let b = get_or r.boot_buf slot [] in
      if get_or r.boot_ok slot false && record_ok slot b
      then record r {
        slots = set r.slots slot (record (slot_at r slot) {
          valid = true;
          counter = get_or b 3 0;
          temp = decode_temp b;
          idx = get_or b 6 0;
        });
      }
      else r

  -- `boot_load_rom`.
  unfoldable pub boot_load_rom : Recorder D → ℕ → Recorder D
  boot_load_rom r slot =
      let k = 2 + slot in
      let b = get_or r.boot_buf k [] in
      if get_or r.boot_ok k false && (get_or b 0 0 == 0x28 && crc8 b 7 == get_or b 7 0)
      then record r {
        slots = set r.slots slot (record (slot_at r slot) { rom = b; rom_valid = true });
      }
      else r

  -- `boot_done`.
  unfoldable pub boot_done : Recorder D → Recorder D
  boot_done r =
      let loaded = boot_load_rom (boot_load_record (boot_load_rom (boot_load_record r 0) 0) 1) 1 in
      if not (loaded.ds18_n == 0) then go_wait loaded else record loaded { state = stop }

  -- `push_rom`.
  unfoldable pub push_rom : Recorder D → ℕ → List ℕ → Recorder D
  push_rom r slot rom = record r {
    jobs =
        set r.jobs r.job_n
          (record { is_rom = true; slot = slot; addr = rom_addr slot; image = rom });
    job_n = r.job_n + 1;
  }

  -- `push_record`.
  unfoldable pub push_record : Recorder D → ℕ → ℤ → ℕ → Recorder D
  push_record r slot temp idx = record r {
    jobs = set r.jobs r.job_n (record {
      is_rom = false;
      slot = slot;
      addr = rec_addr slot;
      image = record_image slot (slot_at r slot).counter temp idx;
    });
    job_n = r.job_n + 1;
  }

  -- `queue_extreme`, with the ROM of the sensor.
  unfoldable pub queue_extreme : Recorder D → ℕ → ℤ → ℕ → List ℕ → Recorder D
  queue_extreme r slot temp idx rom =
      let stored = (slot_at r slot).rom_valid && same_bytes 8 (slot_at r slot).rom rom in
      push_record (if stored then r else push_rom r slot rom) slot temp idx

  -- `commit_job`.
  unfoldable pub commit_job : Recorder D → Job → Recorder D
  commit_job r j =
      let s = slot_at r j.slot in
      record r {
        slots = set r.slots j.slot (
            if j.is_rom then record s { rom = j.image; rom_valid = true } else record s {
              valid = true;
              counter = get_or j.image 3 0;
              temp = decode_temp j.image;
              idx = get_or j.image 6 0;
            });
      }

  -- The loop that commits the first `n` jobs from job `i` on.
  unfoldable pub commit_jobs : ℕ → ℕ → Recorder D → Recorder D
  commit_jobs zero i r = r
  commit_jobs (suc n) i r = commit_jobs n (suc i) (commit_job r (get_or r.jobs i no_job))

  -- `write_abort`.
  unfoldable pub write_abort : Recorder D → Recorder D
  write_abort r =
      let fails = u8 (r.write_fails + 1) in
      go_wait (record r {
        job_n = 0;
        write_fails = fails;
        persist_off = if leb 3 fails then true else r.persist_off;
      })

-- The loop of `evaluate` over the sensors: whether one was measured, the maximum and its sensor, the
-- minimum and its sensor.
pub record Extremes : Type 0 where
  pub have : Bool
  pub hi : ℤ
  pub hi_i : ℕ
  pub lo : ℤ
  pub lo_i : ℕ

abbrev pub no_extremes : Extremes
no_extremes = record { have = false; hi = pos 0; hi_i = 0; lo = pos 0; lo_i = 0 }

abbrev pub see : Extremes → ℤ → ℕ → Extremes
see x t i =
    let up = not x.have || ltb_ℤ x.hi t in
    let down = not x.have || ltb_ℤ t x.lo in
    record {
      have = true;
      hi = if up then t else x.hi;
      hi_i = if up then i else x.hi_i;
      lo = if down then t else x.lo;
      lo_i = if down then i else x.lo_i;
    }

unfoldable pub extremes : ℕ → List ℤ → List Bool → Extremes
extremes zero temps temps_ok = no_extremes
extremes (suc n) temps temps_ok =
    let x = extremes n temps temps_ok in
    if get_or temps_ok n false then see x (get_or temps n temp_error_generic) n else x

-- `temp > DS18B20_TEMP_ERROR_CRC_FAIL`.
abbrev pub is_measured : ℤ → Bool
is_measured temp = ltb_ℤ temp_error_crc_fail temp
