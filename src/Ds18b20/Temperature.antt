-- ===== src/Ds18b20/Temperature.antt =====
-- What a temperature word is reported as, and what a configuration byte says: `decode_temperature`,
-- `res_config_byte` and `resolution_wait_us`.
use stm32_async_1wire.Prelude.{
  ℕ, ◌+◌, ◌-◌, ◌*◌, ◌≤◌, ◌<◌, Bool, ◌==◌, ◌≡◌, ◌≢◌, refl, arith, all_below, all_below_sound, ==_iff,
}
use stm32_async_1wire.Prelude.Int.{ℤ, pos, negsuc, ◌+ℤ◌, ◌*ℤ◌, ◌≤ℤ◌}
use stm32_async_1wire.Prelude.Masks.{bit_or_bytes}
use stm32_async_1wire.Ds18b20.Context.{
  int16, div16, decode_temperature, resolution_wait_us, res_config_byte, temp_error_generic,
  temp_error_no_sensor, temp_error_crc_fail,
}
use stm32_async_1wire.Ds18b20.Txn.{config_resolution}

-- `t` tenths of a degree are `raw` sixteenths to the nearest tenth: 16 t is within 8 of 10 raw.
pub record IsNearest (t raw : ℤ) : Type 0 where
  pub above : pos 16 *ℤ t ≤ℤ pos 10 *ℤ raw +ℤ pos 8
  pub below : pos 10 *ℤ raw ≤ℤ pos 16 *ℤ t +ℤ pos 8

-- For every pair of bytes, the reported temperature is the two's complement word, in sixteenths of a
-- degree, rounded to the nearest tenth.
pub decode_temperature-IsNearest :
    (lsb msb : ℕ)
    → lsb < 256
    → msb < 256
    → IsNearest (decode_temperature lsb msb) (int16 (msb * 256 + lsb))
unfolding decode_temperature int16 div16 ◌+ℤ◌ ◌*ℤ◌
decode_temperature-IsNearest lsb msb hl hm = rw (bit_or_bytes msb lsb hl) (ground arith)

-- The reported tenths fit `int16_t`, and no temperature is one of the three error codes.
pub decode_temperature_range :
    (lsb msb : ℕ)
    → lsb < 256
    → msb < 256
    → (negsuc 20479 ≤ℤ decode_temperature lsb msb) × (decode_temperature lsb msb ≤ℤ pos 20480)
unfolding decode_temperature int16 div16 ◌+ℤ◌ ◌*ℤ◌
decode_temperature_range lsb msb hl hm = rw (bit_or_bytes msb lsb hl) (ground arith)

-- No reported temperature is one of the three error codes.
pub decode_temperature-ne_error :
    (lsb msb : ℕ)
    → lsb < 256
    → msb < 256
    → (decode_temperature lsb msb ≢ temp_error_generic)
      × (decode_temperature lsb msb ≢ temp_error_no_sensor)
      × (decode_temperature lsb msb ≢ temp_error_crc_fail)
decode_temperature-ne_error lsb msb hl hm =
    let range = (decode_temperature_range lsb msb hl hm).0 in
    (
      λ e. absurd (omega (arith, rw e at range)),
      λ e. absurd (omega (arith, rw e at range)),
      λ e. absurd (omega (arith, rw e at range)),
    )

config_test : ℕ → Bool
config_test i = config_resolution (res_config_byte (9 + i)) == 9 + i

config_holds : (i : ℕ) → i < 4 → config_resolution (res_config_byte (9 + i)) ≡ 9 + i
unfolding config_test res_config_byte all_below
config_holds i h = (==_iff _ _).0 (all_below_sound 4 config_test i refl h)

-- The configuration byte that a resolution change sends reads back as that resolution.
pub config_resolution-res_config_byte :
    (res : ℕ) → 9 ≤ res → res ≤ 12 → config_resolution (res_config_byte res) ≡ res
config_resolution-res_config_byte res lo hi = rw restored at (config_holds (res - 9) (omega arith))
  where
    restored : 9 + (res - 9) ≡ res
    restored = omega arith

-- The wait for a conversion is the longest one, 750 ms, halved for each bit below twelve.
pub resolution_wait_us_halves :
    (res : ℕ) → 9 ≤ res → res < 12 → 2 * resolution_wait_us res ≡ resolution_wait_us (res + 1)
unfolding resolution_wait_us
resolution_wait_us_halves res lo hi = ground arith
