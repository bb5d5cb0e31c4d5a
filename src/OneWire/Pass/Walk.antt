-- ===== src/OneWire/Pass/Walk.antt =====
-- `onewire_search_advance_bit` along a pass: the search's own choice, made on the ROM of the previous
-- pass, takes the path of `walk`.
use stm32_async_1wire.Prelude.{
  ℕ, zero, suc, ◌+◌, ◌≤◌, ◌<◌, true, false, List, [], ◌∷◌, ◌==◌, if◌then◌else◌, ◌≡◌, ◌⊎◌, refl, sym,
  ap, ap₂, ◌∙◌, arith, inl, inr,
}
use stm32_async_1wire.OneWire.{Search, direction, write_rom_bit}
use stm32_async_1wire.OneWire.Pass.{Rom, branch, answer, head_bit, tail_bits, choose, walk}
use stm32_async_1wire.OneWire.Pass.Bits.{rom_bit, IsRom, write_rom_bit-IsRom, rom_bit-write_rom_bit}
use stm32_async_1wire.OneWire.Pass.Entries.{extend}

-- The bits of a ROM from number `k` on.
abbrev pub bits_from : ℕ → ℕ → List ℕ → Rom
bits_from zero k rom = []
bits_from (suc n) k rom = rom_bit rom k ∷ bits_from n (k + 1) rom

pub answer-lt : (ds : List Rom) → ((answer ds).0 < 2) × ((answer ds).1 < 2)
unfolding answer
answer-lt ds = ground arith

pub choose-lt : (k d p z a b : ℕ) → a < 2 → (choose k d p z (a, b)).0 < 2
unfolding choose
choose-lt k d p z a b h = ground arith

bits_from-same :
    (n k : ℕ) (rom rom' : List ℕ)
    → ((j : ℕ) → k ≤ j → j < k + n → rom_bit rom j ≡ rom_bit rom' j)
    → bits_from n k rom ≡ bits_from n k rom'
bits_from-same zero k rom rom' h = refl
bits_from-same (suc n) k rom rom' h =
    ap₂ ◌∷◌ (h k (omega arith) (omega arith))
      (bits_from-same n (k + 1) rom rom' (λ j lo hi. h j (omega arith) (omega arith)))

-- The walk's next step, with the walk of the rest shut.
walk_next :
    (n : ℕ) (ds : List Rom) (k d : ℕ) (previous : Rom) (z dir z' : ℕ)
    → choose k d (head_bit previous) z (answer ds) ≡ (dir, z')
    → walk (suc n) ds k d previous z
      ≡ extend dir (walk n (branch dir ds) (k + 1) d (tail_bits previous) z')
unfolding walk
walk_next n ds k d previous z dir z' e = rw e refl

same : (k : ℕ) → (k == k) ≡ true
same k = ground arith

differs : (k j : ℕ) → (k < j) ⊎ (j < k) → (k == j) ≡ false
differs k j h = ground arith

module _ {S : Type 0} where
  -- One bit of a pass: the choice, and the bit written.
  abbrev pub pass_bit : List Rom → Search S → Search S
  pass_bit ds c =
      let (id_bit, cmp_bit) = answer ds in
      let (dir, zero_at) = direction c id_bit cmp_bit in
      record c { rom = write_rom_bit c.rom c.id_bit_number dir; last_zero = zero_at }

  abbrev pub chosen : List Rom → Search S → ℕ
  chosen ds c = (direction c (answer ds).0 (answer ds).1).0

  -- A pass over `n` bits: the bit number moves on between two bits.
  unfoldable pub pass : ℕ → List Rom → Search S → Search S
  pass zero ds c = c
  pass (suc n) ds c =
      pass n (branch (chosen ds c) ds)
        (record (pass_bit ds c) { id_bit_number = c.id_bit_number + 1 })

  -- The search's choice is the choice of the pass.
  pub direction-choose :
      (c : Search S) (id_bit cmp_bit : ℕ)
      → direction c id_bit cmp_bit
        ≡ choose c.id_bit_number c.last_discrepancy
            (rom_bit c.rom c.id_bit_number)
            c.last_zero
            (id_bit, cmp_bit)
  unfolding direction choose rom_bit
  direction-choose c id_bit cmp_bit = ground arith

  pub chosen-lt : (ds : List Rom) (c : Search S) → chosen ds c < 2
  chosen-lt ds c =
      rw (chosen, direction-choose c (answer ds).0 (answer ds).1)
        (choose-lt c.id_bit_number c.last_discrepancy (rom_bit c.rom c.id_bit_number) c.last_zero
          (answer ds).0 (answer ds).1 (answer-lt ds).0)

  abbrev next_bit : List Rom → Search S → Search S
  next_bit ds c = record (pass_bit ds c) { id_bit_number = c.id_bit_number + 1 }

  -- The bits written so far, and those still to be compared.
  next_bit_written :
      (ds : List Rom) (c : Search S) (j : ℕ)
      → IsRom c.rom
      → 1 ≤ c.id_bit_number
      → c.id_bit_number < 65
      → 1 ≤ j
      → j < 65
      → rom_bit (next_bit ds c).rom j
        ≡ (if c.id_bit_number == j then chosen ds c else rom_bit c.rom j)
  next_bit_written ds c j r lo hi jlo jhi =
      rom_bit-write_rom_bit c.rom c.id_bit_number j (chosen ds c) r lo hi jlo jhi (chosen-lt ds c)

  -- What a pass from `c` leaves: the path of the walk in the ROM, its last zero, and all else as it was.
  pub record IsPassed (n : ℕ) (ds : List Rom) (c c' : Search S) : Type 0 where
    pub rom_ok : IsRom c'.rom
    pub path_is :
        bits_from n c.id_bit_number c'.rom
        ≡ (walk n ds c.id_bit_number c.last_discrepancy
            (bits_from n c.id_bit_number c.rom)
            c.last_zero).0
    pub last_is :
        c'.last_zero
        ≡ (walk n ds c.id_bit_number c.last_discrepancy
            (bits_from n c.id_bit_number c.rom)
            c.last_zero).1
    pub low_kept : (j : ℕ) → 1 ≤ j → j < c.id_bit_number → rom_bit c'.rom j ≡ rom_bit c.rom j
    pub frame :
        c'
        ≡ (record c { rom = c'.rom; last_zero = c'.last_zero; id_bit_number = c.id_bit_number + n })

  -- A pass of up to 64 bits, from a bit number from 1 on, over eight ROM bytes: its path and its
  -- last zero are those of the walk through the devices' bits from the ROM of the previous pass, the
  -- ROM bits before it stay, and no other field of the search changes.
  pub pass-IsPassed :
      (n : ℕ) (ds : List Rom) (c : Search S)
      → IsRom c.rom
      → 1 ≤ c.id_bit_number
      → c.id_bit_number + n ≤ 65
      → IsPassed n ds c (pass n ds c)
  unfolding pass
  pass-IsPassed zero ds c r lo hi = record {
    rom_ok = r;
    path_is = unfold walk in refl;
    last_is = unfold walk in refl;
    low_kept = λ j jlo jhi. refl;
    frame = ap (λ (i : ℕ). record c { id_bit_number = i }) (omega arith);
  }
  pass-IsPassed (suc n) ds c r lo hi =
      let k = c.id_bit_number in
      let dir = chosen ds c in
      let bit = chosen-lt ds c in
      let rest =
        pass-IsPassed n (branch dir ds) (next_bit ds c)
          (write_rom_bit-IsRom c.rom k dir r (omega arith) bit) (omega arith) (omega arith) in
      let z = (direction c (answer ds).0 (answer ds).1).1 in
      let moved : bits_from n (k + 1) (next_bit ds c).rom ≡ bits_from n (k + 1) c.rom =
        bits_from-same n (k + 1) _ _ (λ j jlo jhi.
          next_bit_written ds c j r lo (omega arith) (omega arith) (omega arith)
          ∙ rw (differs k j (inl (omega arith))) refl) in
      let step =
        walk_next n ds k c.last_discrepancy (bits_from (suc n) k c.rom) c.last_zero dir z
          (sym (direction-choose c (answer ds).0 (answer ds).1)) in
      let first : rom_bit (pass n (branch dir ds) (next_bit ds c)).rom k ≡ dir =
        rest.low_kept k lo (omega arith)
        ∙ next_bit_written ds c k r lo (omega arith) lo (omega arith)
        ∙ rw (same k) refl in
      record {
        rom_ok = rest.rom_ok;
        path_is = rw step (
            ap₂ ◌∷◌ first (
              rest.path_is
              ∙ ap (λ (p : Rom). (walk n (branch dir ds) (k + 1) c.last_discrepancy p z).0) moved));
        last_is = rw step (
            rest.last_is
            ∙ ap (λ (p : Rom). (walk n (branch dir ds) (k + 1) c.last_discrepancy p z).1) moved);
        low_kept = λ j jlo jhi.
            rest.low_kept j jlo (omega arith)
            ∙ next_bit_written ds c j r lo (omega arith) jlo (omega arith)
            ∙ rw (differs k j (inr jhi)) refl;
        frame =
            rest.frame
            ∙ ap
                (λ (i : ℕ). record c {
                  rom = (pass n (branch dir ds) (next_bit ds c)).rom;
                  last_zero = (pass n (branch dir ds) (next_bit ds c)).last_zero;
                  id_bit_number = i;
                })
                (omega arith);
      }
