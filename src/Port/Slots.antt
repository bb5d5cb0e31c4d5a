-- ===== src/Port/Slots.antt =====
-- What an armed port sends, slot by slot, and where the line is left when the one-pulse timer stops.
-- `slot_pulses` and `final_level` read the registers as src/ow_port.h documents the hardware: the
-- first slot has the shadowed compare value; at the end of each slot a feed request makes the enabled DMA
-- channel load the next value, as long as its count lasts, and the value stays otherwise; without the request
-- it stays, and the preloaded one acts at the terminal update.
use stm32_async_1wire.Prelude.{
  ℕ, zero, suc, ◌*◌, ◌-◌, ◌≤◌, ◌<◌, ◌⊎◌, ltb, ◌==◌, true, false, List, [], ◌∷◌, ◌++◌, get_or, take,
  length, replicate, if◌then◌else◌, ◌≡◌, refl, ap₂, arith,
}
use stm32_async_1wire.Wire.{release_pulse, u16}
use stm32_async_1wire.Wire.Codec.{bit_pulse}
use stm32_async_1wire.Port.{Port, Buffer, write_slots, read_data, read_pair, reset, write_then_read}

-- The compare values behind so many slots, for a DMA with a count left, its source and the value before.
unfoldable pub fed : ℕ → ℕ → List ℕ → ℕ → List ℕ
fed zero count source value = []
fed (suc n) zero source value = value ∷ fed n zero source value
fed (suc n) (suc count) [] value = value ∷ fed n count [] value
fed (suc n) (suc count) (x ∷ source) value = x ∷ fed n count source x

-- The values that the feed loads at the end of each slot.
unfoldable pub loads : Port → List ℕ
loads p = fed (suc p.rcr) (if p.feed.enabled then p.feed.count else 0) p.feed.source p.shadow

unfoldable pub slot_pulses : Port → List ℕ
slot_pulses p =
    p.shadow ∷ (if p.feed_request then take p.rcr (loads p) else replicate p.rcr p.shadow)

unfoldable pub final_level : Port → ℕ
final_level p = if p.feed_request then get_or (loads p) p.rcr p.shadow else p.ccr3

-- A timed operation is under way: the timer runs, and the completion flag is clear.
pub record IsRunning (p : Port) : Type 0 where
  pub started : p.running ≡ true
  pub flag_clear : p.uif ≡ false
  pub released : final_level p ≡ release_pulse

-- The port sends these pulses and then releases the line.
pub record Sends (p : Port) (pulses : List ℕ) : Type 0 where
  pub runs : IsRunning p
  pub slots_are : slot_pulses p ≡ pulses

cons_injective : {x y : ℕ} {xs ys : List ℕ} → (x ∷ xs) ≡ (y ∷ ys) → (x ≡ y) × (xs ≡ ys)
cons_injective h = ground arith

-- A count that covers a message and the release behind it loads both.
fed-snoc :
    (xs table : List ℕ) (v d : ℕ)
    → take (suc (length xs)) table ≡ xs ++ release_pulse ∷ []
    → let values = fed (suc (length xs)) (suc (length xs)) table v in
      (take (length xs) values ≡ xs) × (get_or values (length xs) d ≡ release_pulse)
unfolding fed
fed-snoc [] [] v d h = cc
fed-snoc [] (t ∷ table) v d h = (refl, (cons_injective h).0)
fed-snoc (x ∷ xs) [] v d h = cc
fed-snoc (x ∷ xs) (t ∷ table) v d h =
    let e = cons_injective h in let ih = fed-snoc xs table t d e.1 in (ap₂ ◌∷◌ e.0 ih.0, ih.1)

pub write_slots-Sends :
    (p : Port) (table msg : List ℕ)
    → 1 ≤ length msg
    → length msg ≤ 256
    → take (suc (length msg)) table ≡ msg ++ release_pulse ∷ []
    → ((write_slots p table (length msg)).1 ≡ true) × Sends (write_slots p table (length msg)).0 msg
unfolding write_slots slot_pulses final_level loads fed
write_slots-Sends p table [] lo hi h = absurd (omega arith)
write_slots-Sends p [] (x ∷ msg) lo hi h = cc
write_slots-Sends p (t ∷ table) (x ∷ []) lo hi h =
    let e = cons_injective h in
    (
      refl,
      record {
        runs = record { started = refl; flag_clear = refl; released = refl };
        slots_are = rw e.0;
      },
    )
write_slots-Sends p (t ∷ table) (x ∷ y ∷ msg) lo hi h =
    let e = cons_injective h in
    let rest = fed-snoc (y ∷ msg) table t t e.1 in
    let small : ltb 256 (suc (suc (length msg))) ≡ false = ground arith in
    let last : suc (suc (length msg)) - 1 ≡ suc (length msg) = omega arith in
    let nonzero : (suc (suc (length msg)) == 0) ≡ false = ground arith in
    let several : (suc (suc (length msg)) == 1) ≡ false = ground arith in
    rw (nonzero, small, several, last)
      (
        refl,
        record {
          runs = record { started = refl; flag_clear = refl; released = rest.1 };
          slots_are = ap₂ ◌∷◌ e.0 rest.0;
        },
      )

-- A count of slots that the repetition counter cannot hold is refused, and changes nothing.
pub write_slots_refused :
    (p : Port) (table : List ℕ) (slots : ℕ)
    → (slots ≡ 0) ⊎ (256 < slots)
    → write_slots p table slots ≡ (p, false)
unfolding write_slots
write_slots_refused p table slots h = ground arith

-- A reset sends its one long pulse.
pub reset-Sends : (p : Port) (dst : Buffer) → Sends (reset p dst) (480 ∷ [])
unfolding reset slot_pulses final_level loads fed
reset-Sends p dst = ground arith

-- A pair read sends two read slots.
pub read_pair-Sends : (p : Port) (dst : Buffer) → Sends (read_pair p dst) (5 ∷ 5 ∷ [])
unfolding read_pair slot_pulses final_level loads fed
read_pair-Sends p dst = ground arith

-- A merged write and read sends the slot of the bit and two read slots, and leaves the line released.
pub write_then_read-Sends :
    (p : Port) (bit : ℕ) (dst : Buffer)
    → Sends (write_then_read p bit dst (5 ∷ 5 ∷ 0 ∷ [])) (bit_pulse bit ∷ 5 ∷ 5 ∷ [])
unfolding write_then_read slot_pulses final_level loads fed
write_then_read-Sends p bit dst = ground arith

-- A read of 1 to 32 bytes is accepted, sends a read slot for each bit, and leaves the line released.
pub read_data-Sends :
    (p : Port) (dst : Buffer) (bytes : ℕ)
    → 1 ≤ bytes
    → bytes ≤ 32
    → ((read_data p dst bytes).1 ≡ true) × Sends (read_data p dst bytes).0 (replicate (8 * bytes) 5)
unfolding read_data slot_pulses final_level loads fed
read_data-Sends p dst bytes lo hi =
    let some_bytes : bytes == 0 ≡ false = ground arith in
    let fits : ltb 32 bytes ≡ false = ground arith in
    let slots : suc (u16 (bytes * 8) - 1) ≡ 8 * bytes = omega arith in
    rw (some_bytes, fits)
      (
        refl,
        record {
          runs = record { started = refl; flag_clear = refl; released = refl };
          slots_are = rw (← slots);
        },
      )
