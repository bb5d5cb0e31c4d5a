-- ===== src/Port/Clock.antt =====
-- The timer's prescaler and capture filter for a clock, src/ow_port.h: chosen by the preprocessor from
-- OW_TIM1_MHZ, or at run time from SystemCoreClock.
use stm32_async_1wire.Prelude.{
  ℕ, ◌-◌, ◌*◌, ◌/◌, ◌^◌, ◌≤◌, Bool, true, false, ltb, leb, if◌then◌else◌, ◌≡◌, refl, ap, ◌∙◌, arith,
}
use stm32_async_1wire.Wire.{u16, u32}

-- The bits of IC4F, the vendor's four masks.
pub record Filter : Type 0 where
  pub bit_0 : Bool
  pub bit_1 : Bool
  pub bit_2 : Bool
  pub bit_3 : Bool

-- `OW_PORT_IC4F_ARGS`.
unfoldable pub ic4f_args : ℕ → Filter
ic4f_args mhz =
    if leb mhz 8
    then record { bit_0 = false; bit_1 = true; bit_2 = false; bit_3 = false }
    else if leb mhz 16
    then record { bit_0 = true; bit_1 = true; bit_2 = false; bit_3 = false }
    else if leb mhz 72
    then record { bit_0 = true; bit_1 = true; bit_2 = true; bit_3 = false }
    else if leb mhz 168
    then record { bit_0 = false; bit_1 = false; bit_2 = false; bit_3 = true }
    else record { bit_0 = true; bit_1 = true; bit_2 = false; bit_3 = true }

-- `OW_PORT_TIM_PRESCALER`.
unfoldable pub tim_prescaler : ℕ → ℕ
tim_prescaler mhz = mhz - 1

-- `ow_port_mhz_from_hz`.
unfoldable pub mhz_from_hz : ℕ → ℕ
mhz_from_hz hz = u32 (hz / 2 ^ 8 * 537) / 2 ^ 21

-- `ow_port_psc_from_hz`.
unfoldable pub psc_from_hz : ℕ → ℕ
psc_from_hz hz = let mhz = mhz_from_hz hz in u16 (if ltb 0 mhz then mhz - 1 else 0)

-- `ow_port_ic4f_mask_from_hz`.
unfoldable pub ic4f_mask_from_hz : ℕ → Filter
ic4f_mask_from_hz hz =
    let mhz = mhz_from_hz hz in
    if leb mhz 8
    then record { bit_0 = false; bit_1 = true; bit_2 = false; bit_3 = false }
    else if leb mhz 16
    then record { bit_0 = true; bit_1 = true; bit_2 = false; bit_3 = false }
    else if leb mhz 72
    then record { bit_0 = true; bit_1 = true; bit_2 = true; bit_3 = false }
    else if leb mhz 168
    then record { bit_0 = false; bit_1 = false; bit_2 = false; bit_3 = true }
    else record { bit_0 = true; bit_1 = true; bit_2 = false; bit_3 = true }

mhz_exact : (mhz : ℕ) → mhz ≤ 2047 → mhz_from_hz (mhz * 1000000) ≡ mhz
unfolding mhz_from_hz
mhz_exact mhz h = omega arith

filter_of : (hz : ℕ) → ic4f_mask_from_hz hz ≡ ic4f_args (mhz_from_hz hz)
unfolding ic4f_mask_from_hz ic4f_args
filter_of hz = refl

prescaler_of : (m : ℕ) → 1 ≤ m → m ≤ 2047 → u16 (if ltb 0 m then m - 1 else 0) ≡ m - 1
prescaler_of m lo hi = ground arith

-- For every clock of a whole number of MHz, from 1 to 2047, the run-time computation divides without a division
-- and without overflow to that number, and so programs the same prescaler and the same filter as the
-- preprocessor.
pub clock_agrees :
    (mhz : ℕ)
    → 1 ≤ mhz
    → mhz ≤ 2047
    → let hz = mhz * 1000000 in
      (mhz_from_hz hz ≡ mhz)
      × (psc_from_hz hz ≡ tim_prescaler mhz)
      × (ic4f_mask_from_hz hz ≡ ic4f_args mhz)
unfolding psc_from_hz tim_prescaler
clock_agrees mhz lo hi =
    let e = mhz_exact mhz hi in
    (e, rw e (prescaler_of mhz lo hi), filter_of (mhz * 1000000) ∙ ap ic4f_args e)
