-- ===== src/OneWire/Pass/Searches.antt =====
-- The passes of a whole search: phases CMD and WRITE_DIR of `onewire_search_poll` reset the bit number
-- and the last zero, and hand the last zero on as the next pass's discrepancy.
use stm32_async_1wire.Prelude.{
  ℕ, zero, suc, ◌≤◌, false, List, [], ◌∷◌, map, ◌==◌, if◌then◌else◌, ◌≡◌, ap, ap₂, ◌∙◌, arith,
  length,
}
use stm32_async_1wire.OneWire.{Search}
use stm32_async_1wire.OneWire.Pass.{Rom, walk}
use stm32_async_1wire.OneWire.Pass.Bits.{IsRom}
use stm32_async_1wire.OneWire.Pass.Entries.{Entry, Chain, last_entry, entries, IsBus, walk-first}
use stm32_async_1wire.OneWire.Pass.Order.{Next, entries_end, entries-Chain}
use stm32_async_1wire.OneWire.Pass.Walk.{bits_from, pass, pass-IsPassed}

-- The paths of a sequence of passes.
abbrev pub paths : Entry → List Entry → List Rom
paths e es = e.0 ∷ map (λ (u : Entry). u.0) es

module _ {S : Type 0} where
  -- A pass begins at the first bit, with no zero taken.
  unfoldable pub begin_pass : Search S → Search S
  begin_pass c = record c { id_bit_number = 1; last_zero = 0 }

  unfoldable pub end_pass : Search S → Search S
  end_pass c = record c { last_discrepancy = c.last_zero }

  -- The ROMs of at most `fuel` passes, until one leaves no discrepancy.
  unfoldable pub roms_found : ℕ → List Rom → Search S → List (List ℕ)
  roms_found zero ds c = []
  roms_found (suc fuel) ds c =
      let c' = end_pass (pass 64 ds (begin_pass c)) in
      let rest = roms_found fuel ds c' in c'.rom ∷ (if c'.last_discrepancy == 0 then [] else rest)

  found-Chain :
      (fuel : ℕ) (ds : List Rom) (c : Search S) (e : Entry) (es : List Entry)
      → IsRom c.rom
      → Chain (Next 64 ds 1 0) e es
      → (last_entry e es).1 ≡ 0
      → walk 64 ds 1 c.last_discrepancy (bits_from 64 1 c.rom) 0 ≡ e
      → length es ≤ fuel
      → map (bits_from 64 1) (roms_found (suc fuel) ds c) ≡ paths e es
  unfolding roms_found begin_pass end_pass
  found-Chain fuel ds c e [] r chain end w l =
      let p = pass-IsPassed 64 ds (begin_pass c) r (omega arith) (omega arith) in
      let last : (pass 64 ds (begin_pass c)).last_zero ≡ 0 =
        p.last_is ∙ ap (λ (u : Entry). u.1) w ∙ end in
      rw last (ap (λ (q : Rom). q ∷ []) (p.path_is ∙ ap (λ (u : Entry). u.0) w))
  found-Chain zero ds c e (f ∷ fs) r chain end w l = absurd (omega arith)
  found-Chain (suc fuel) ds c e (f ∷ fs) r chain end w l =
      let p = pass-IsPassed 64 ds (begin_pass c) r (omega arith) (omega arith) in
      let c' = pass 64 ds (begin_pass c) in
      let last : c'.last_zero ≡ e.1 = p.last_is ∙ ap (λ (u : Entry). u.1) w in
      let path : bits_from 64 1 c'.rom ≡ e.0 = p.path_is ∙ ap (λ (u : Entry). u.0) w in
      let more : (c'.last_zero == 0) ≡ false = rw last (ground (arith, chain.0.0)) in
      let rest =
        found-Chain fuel ds (end_pass c') f fs p.rom_ok chain.1 end
          (ap₂ (λ (d : ℕ) (q : Rom). walk 64 ds 1 d q 0) last path ∙ chain.0.1.0) (omega arith) in
      rw more (ap₂ ◌∷◌ path rest)

  -- A search over a bus of devices finds, in as many passes as it has different ROMs, the paths of the
  -- tree of ROM bits from left to right, whatever is in the ROM buffer at first.
  pub roms_found-paths :
      (fuel : ℕ) (ds : List Rom) (c : Search S)
      → IsRom c.rom
      → IsBus 64 ds
      → c.last_discrepancy ≡ 0
      → length (entries 64 ds 1 0).1 ≤ fuel
      → map (bits_from 64 1) (roms_found (suc fuel) ds c)
        ≡ paths (entries 64 ds 1 0).0 (entries 64 ds 1 0).1
  roms_found-paths fuel ds c r h d l =
      found-Chain fuel ds c _ _ r (entries-Chain 64 ds 1 0 h (omega arith))
        (entries_end 64 ds 1 0 h)
        (walk-first 64 ds 1 c.last_discrepancy (bits_from 64 1 c.rom) 0 h (omega arith)) l
