-- ===== src/OneWire/Sends.antt =====
-- `onewire_write_slots`, down to the slots that the port sends.
use stm32_async_1wire.Prelude.{
  ℕ, suc, ◌≤◌, ◌||◌, false, List, [], ◌∷◌, ◌++◌, take, length, ltb, ◌==◌, ◌≡◌, arith,
}
use stm32_async_1wire.Wire.{release_pulse}
use stm32_async_1wire.Port.Slots.{Sends, write_slots-Sends}
use stm32_async_1wire.OneWire.{Bus, write_slots}

module _ {S : Type 0} where
  -- A table of 1 to 256 slots that ends in the release pulse is sent.
  pub bus-Sends :
      (b : Bus S) (table msg : List ℕ) (slots : ℕ)
      → slots ≡ length msg
      → 1 ≤ length msg
      → length msg ≤ 256
      → take (suc slots) table ≡ msg ++ release_pulse ∷ []
      → Sends (write_slots b table slots).0.port msg
  unfolding write_slots
  bus-Sends b table msg slots e lo hi h =
      let fits : ((length msg == 0) || ltb 256 (length msg)) ≡ false = ground arith in
      rw (e, fits) (write_slots-Sends b.port table msg lo hi (rw e at h)).1
