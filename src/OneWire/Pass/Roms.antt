-- ===== src/OneWire/Pass/Roms.antt =====
-- ROMs as bytes and as bits: the 64 bits that the search writes determine the eight bytes.
use stm32_async_1wire.Prelude.{
  ℕ, zero, suc, ◌+◌, ◌-◌, ◌*◌, ◌/◌, ◌%◌, ◌≤◌, ◌<◌, Bool, true, List, [], ◌∷◌, map, get_or, length,
  All, ◌==◌, ◌≡◌, refl, sym, ap, ap₂, ◌∙◌, inl, inr, arith, Bool-cases, all_below, all_below_sound,
  ==_iff,
}
use stm32_async_1wire.OneWire.{Search}
use stm32_async_1wire.OneWire.Pass.{Rom}
use stm32_async_1wire.OneWire.Pass.Bits.{byte_bit, rom_bit, IsRom}
use stm32_async_1wire.OneWire.Pass.Entries.{IsBus, entries}
use stm32_async_1wire.OneWire.Pass.Walk.{bits_from, pass, pass-IsPassed}
use stm32_async_1wire.OneWire.Pass.Searches.{roms_found, begin_pass, end_pass}
use stm32_async_1wire.OneWire.Pass.Once.{found_once, passes_lem}
use stm32_async_1wire.OneWire.Pass.Count.{same_rom, count, once}

-- The bits of a device's ROM, as the bus sees them.
abbrev pub rom_path : List ℕ → Rom
rom_path rom = bits_from 64 1 rom

byte_value : ℕ → ℕ
byte_value v =
    byte_bit v 0
    + 2 * byte_bit v 1
    + 4 * byte_bit v 2
    + 8 * byte_bit v 3
    + 16 * byte_bit v 4
    + 32 * byte_bit v 5
    + 64 * byte_bit v 6
    + 128 * byte_bit v 7

value_test : ℕ → Bool
value_test v = byte_value v == v

value_table : all_below 256 value_test ≡ true
unfolding all_below value_test byte_value
value_table = refl

byte_value_lem : (v : ℕ) → v < 256 → byte_value v ≡ v
unfolding value_test
byte_value_lem v h = (==_iff _ _).0 (all_below_sound 256 value_test v value_table h)

bits_from_bit :
    (n k : ℕ) (rom rom' : List ℕ) (j : ℕ)
    → bits_from n k rom ≡ bits_from n k rom'
    → k ≤ j
    → j < k + n
    → rom_bit rom j ≡ rom_bit rom' j
bits_from_bit zero k rom rom' j e lo hi = absurd (omega arith)
bits_from_bit (suc n) k rom rom' j e lo hi =
    let here : rom_bit rom k ≡ rom_bit rom' k = ap (λ (p : Rom). get_or p 0 0) e in
    let there : bits_from n (k + 1) rom ≡ bits_from n (k + 1) rom' = ground arith in
    elim (Bool-cases (k == j)) [
      | inl at ↦ rw (← (==_iff k j).0 at) here
      | inr off ↦ bits_from_bit n (k + 1) rom rom' j there (ground arith) (omega arith)
    ]

byte_same :
    (rom rom' : List ℕ) (i : ℕ)
    → IsRom rom
    → IsRom rom'
    → rom_path rom ≡ rom_path rom'
    → i < 8
    → get_or rom i 0 ≡ get_or rom' i 0
unfolding byte_value rom_bit
byte_same rom rom' i r r' e l =
    sym (byte_value_lem (get_or rom i 0) (r.bytes i))
    ∙ rw
        (
          bit 0 (omega arith),
          bit 1 (omega arith),
          bit 2 (omega arith),
          bit 3 (omega arith),
          bit 4 (omega arith),
          bit 5 (omega arith),
          bit 6 (omega arith),
          bit 7 (omega arith),
        )
        refl
    ∙ byte_value_lem (get_or rom' i 0) (r'.bytes i)
  where
    bit : (j : ℕ) → j < 8 → byte_bit (get_or rom i 0) j ≡ byte_bit (get_or rom' i 0) j
    bit j h =
        let q : (8 * i + j + 1 - 1) / 8 ≡ i = omega arith in
        let m : (8 * i + j + 1 - 1) % 8 ≡ j = omega arith in
        rw (q, m) at (bits_from_bit 64 1 rom rom' (8 * i + j + 1) e (omega arith) (omega arith))

same_list :
    (xs ys : List ℕ)
    → length xs ≡ length ys
    → ((i : ℕ) → i < length xs → get_or xs i 0 ≡ get_or ys i 0)
    → xs ≡ ys
same_list [] [] e h = refl
same_list [] (y ∷ ys) e h = absurd (omega arith)
same_list (x ∷ xs) [] e h = absurd (omega arith)
same_list (x ∷ xs) (y ∷ ys) e h =
    ap₂ ◌∷◌ (h 0 (omega arith)) (same_list xs ys (omega arith) (λ i l. h (suc i) (omega arith)))

pub rom_path_injective :
    (rom rom' : List ℕ) → IsRom rom → IsRom rom' → rom_path rom ≡ rom_path rom' → rom ≡ rom'
rom_path_injective rom rom' r r' e =
    same_list rom rom' (r.size ∙ sym r'.size)
      (λ i l. byte_same rom rom' i r r' e (omega (arith, r.size)))

pub same_rom_self : (p : Rom) → same_rom p p ≡ true
unfolding same_rom
same_rom_self [] = refl
same_rom_self (x ∷ p) = ground (arith, same_rom_self p)

pub same_rom_same : (p q : Rom) → same_rom p q ≡ true → p ≡ q
unfolding same_rom
same_rom_same [] [] h = refl
same_rom_same [] (y ∷ q) h = absurd (cc h)
same_rom_same (x ∷ p) [] h = absurd (cc h)
same_rom_same (x ∷ p) (y ∷ q) h = ap₂ ◌∷◌ (ground arith) (same_rom_same p q (ground arith))

same_rom-rom_path :
    (rom rom' : List ℕ)
    → IsRom rom
    → IsRom rom'
    → same_rom (rom_path rom) (rom_path rom') ≡ same_rom rom rom'
same_rom-rom_path rom rom' r r' = elim (Bool-cases (same_rom rom rom')) [
  | inl e ↦ rw (e, same_rom_same rom rom' e) (same_rom_self (rom_path rom'))
  | inr e ↦ elim (Bool-cases (same_rom (rom_path rom) (rom_path rom'))) [
    | inl u ↦
        let same = rom_path_injective rom rom' r r' (same_rom_same _ _ u) in
        let itself : same_rom rom rom' ≡ true = rw same (same_rom_self rom') in
        absurd (cc (sym e, itself))
    | inr u ↦ u ∙ sym e
  ]
]

pub count-rom_path :
    (rom : List ℕ) (roms : List (List ℕ))
    → IsRom rom
    → All IsRom roms
    → count (rom_path rom) (map rom_path roms) ≡ count rom roms
unfolding count
count-rom_path rom [] r h = refl
count-rom_path rom (x ∷ roms) r h =
    rw (same_rom-rom_path rom x r h.0, count-rom_path rom roms r h.1) refl

length-bits_from : (n k : ℕ) (rom : List ℕ) → length (bits_from n k rom) ≡ n
length-bits_from zero k rom = refl
length-bits_from (suc n) k rom = ap suc (length-bits_from n (k + 1) rom)

bits_from-lt : (n k : ℕ) (rom : List ℕ) → All (λ (b : ℕ). b < 2) (bits_from n k rom)
unfolding rom_bit
bits_from-lt zero k rom = tt
bits_from-lt (suc n) k rom = (ground arith, bits_from-lt n (k + 1) rom)

pub length-map_path : (roms : List (List ℕ)) → length (map rom_path roms) ≡ length roms
length-map_path [] = refl
length-map_path (x ∷ roms) = ap suc (length-map_path roms)

all_paths :
    (roms : List (List ℕ))
    → All (λ (d : Rom). (length d ≡ 64) × All (λ (b : ℕ). b < 2) d) (map rom_path roms)
all_paths [] = tt
all_paths (x ∷ roms) = ((length-bits_from 64 1 x, bits_from-lt 64 1 x), all_paths roms)

pub roms-IsBus : (first : List ℕ) (roms : List (List ℕ)) → IsBus 64 (map rom_path (first ∷ roms))
roms-IsBus first roms = (refl, all_paths (first ∷ roms))

module _ {S : Type 0} where
  roms_found-IsRom :
      (fuel : ℕ) (ds : List Rom) (c : Search S) → IsRom c.rom → All IsRom (roms_found fuel ds c)
  unfolding roms_found begin_pass end_pass
  roms_found-IsRom zero ds c r = tt
  roms_found-IsRom (suc fuel) ds c r =
      let ok = (pass-IsPassed 64 ds (begin_pass c) r (omega arith) (omega arith)).rom_ok in
      let c' = end_pass (pass 64 ds (begin_pass c)) in
      let rest = roms_found-IsRom fuel ds c' ok in
      (ok, elim (Bool-cases (c'.last_discrepancy == 0)) [ inl e ↦ rw e tt | inr e ↦ rw e rest ])

  pub found_roms_once :
      (fuel : ℕ) (first : List ℕ) (roms : List (List ℕ)) (c : Search S) (rom : List ℕ)
      → All IsRom (first ∷ roms)
      → IsRom rom
      → IsRom c.rom
      → c.last_discrepancy ≡ 0
      → length (entries 64 (map rom_path (first ∷ roms)) 1 0).1 ≤ fuel
      → count rom (roms_found (suc fuel) (map rom_path (first ∷ roms)) c)
        ≡ once (count rom (first ∷ roms))
  found_roms_once fuel first roms c rom h r buffer d l =
      let all = map rom_path (first ∷ roms) in
      sym (count-rom_path rom _ r (roms_found-IsRom (suc fuel) all c buffer))
      ∙ found_once fuel all c (rom_path rom) buffer (roms-IsBus first roms) d l
      ∙ ap once (count-rom_path rom (first ∷ roms) r h)

  -- On a bus of devices, a search that starts with no discrepancy finds the ROM of each device, and finds
  -- it once, and finds no other, in any number of passes from that of the devices on, whatever ROM is in
  -- the buffer at first.
  pub roms_found-once :
      (fuel : ℕ) (first : List ℕ) (roms : List (List ℕ)) (c : Search S) (rom : List ℕ)
      → All IsRom (first ∷ roms)
      → IsRom rom
      → IsRom c.rom
      → c.last_discrepancy ≡ 0
      → length roms ≤ fuel
      → count rom (roms_found (suc fuel) (map rom_path (first ∷ roms)) c)
        ≡ once (count rom (first ∷ roms))
  roms_found-once fuel first roms c rom h r buffer d l =
      let all = map rom_path (first ∷ roms) in
      let bus = roms-IsBus first roms in
      found_roms_once fuel first roms c rom h r buffer d
        (omega (arith, passes_lem all bus, length-map_path (first ∷ roms)))
