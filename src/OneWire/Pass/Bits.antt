-- ===== src/OneWire/Pass/Bits.antt =====
-- The bits of a ROM, and the write of one of them in `onewire_search_advance_bit`.
use stm32_async_1wire.Prelude.{
  ℕ, zero, suc, ◌+◌, ◌-◌, ◌*◌, ◌/◌, ◌%◌, ◌^◌, ◌≤◌, ◌<◌, bit_and, bit_or, Bool, true, false, ◌&&◌,
  List, get_or, set, length, ltb, ◌==◌, if◌then◌else◌, ◌≡◌, refl, ◌∙◌, arith, all_below,
  all_below_sound, ==_iff, Bool-cases, inl, inr, get_or-set_self, get_or-set_ne, length-set, ltb→lt,
}
use stm32_async_1wire.Wire.{u8}
use stm32_async_1wire.OneWire.{write_rom_bit}

-- A bit of a byte, tested by its mask as the search does.
abbrev pub byte_bit : ℕ → ℕ → ℕ
byte_bit v i = if bit_and v (u8 (2 ^ i)) == 0 then 0 else 1

abbrev write_byte_bit : ℕ → ℕ → ℕ → ℕ
write_byte_bit v i dir = if dir == 0 then bit_and v (255 - u8 (2 ^ i)) else bit_or v (u8 (2 ^ i))

-- Bit number `k` of a ROM, from 1.
unfoldable pub rom_bit : List ℕ → ℕ → ℕ
rom_bit rom k = byte_bit (get_or rom ((k - 1) / 8) 0) ((k - 1) % 8)

byte_test : ℕ → ℕ → ℕ → Bool
byte_test v i j =
    byte_bit (write_byte_bit v i 0) j == (if i == j then 0 else byte_bit v j)
    && byte_bit (write_byte_bit v i 1) j == (if i == j then 1 else byte_bit v j)
    && ltb (write_byte_bit v i 0) 256
    && ltb (write_byte_bit v i 1) 256

write_test : ℕ → Bool
write_test x = byte_test (x % 256) (x / 256 % 8) (x / 2048 % 8)

write_table : all_below 16384 write_test ≡ true
unfolding write_test byte_test all_below
write_table = refl

write_holds : (v i j : ℕ) → v < 256 → i < 8 → j < 8 → byte_test v i j ≡ true
unfolding write_test
write_holds v i j hv hi hj =
    let low : (v + 256 * i + 2048 * j) % 256 ≡ v = omega arith in
    let mid : (v + 256 * i + 2048 * j) / 256 % 8 ≡ i = omega arith in
    let top : (v + 256 * i + 2048 * j) / 2048 % 8 ≡ j = omega arith in
    rw (low, mid, top) at
      (all_below_sound 16384 write_test (v + 256 * i + 2048 * j) write_table (omega arith))

-- Writing one bit of a byte sets that bit, keeps the others, and leaves a byte.
pub record IsWritten (v i j dir : ℕ) : Type 0 where
  pub bit_is : byte_bit (write_byte_bit v i dir) j ≡ (if i == j then dir else byte_bit v j)
  pub byte_is : write_byte_bit v i dir < 256

and_true : {p q : Bool} → (p && q) ≡ true → (p ≡ true) × (q ≡ true)
and_true {p = true} h = (refl, h)
and_true {p = false} h = cc h

write_byte_bit-IsWritten : (v i j dir : ℕ) → v < 256 → i < 8 → j < 8 → dir < 2 → IsWritten v i j dir
unfolding byte_test
write_byte_bit-IsWritten v i j zero hv hi hj hd =
    let t = and_true (write_holds v i j hv hi hj) in
    let u = and_true t.0 in
    record { bit_is = (==_iff _ _).0 (and_true u.0).0; byte_is = ltb→lt _ _ u.1 }
write_byte_bit-IsWritten v i j (suc zero) hv hi hj hd =
    let t = and_true (write_holds v i j hv hi hj) in
    let u = and_true t.0 in
    record { bit_is = (==_iff _ _).0 (and_true u.0).1; byte_is = ltb→lt _ _ t.1 }
write_byte_bit-IsWritten v i j (suc (suc dir)) hv hi hj hd = absurd (omega arith)

-- The eight bytes of a ROM.
pub record IsRom (rom : List ℕ) : Type 0 where
  pub size : length rom ≡ 8
  pub bytes : (i : ℕ) → get_or rom i 0 < 256

pub write_rom_bit-IsRom :
    (rom : List ℕ) (k dir : ℕ) → IsRom rom → k < 65 → dir < 2 → IsRom (write_rom_bit rom k dir)
unfolding write_rom_bit
write_rom_bit-IsRom rom k dir r h d = record {
  size = length-set rom _ _ ∙ r.size;
  bytes = λ i. elim (Bool-cases ((k - 1) / 8 == i)) [
    | inl e ↦
        let same : (k - 1) / 8 ≡ i = (==_iff _ _).0 e in
        rw (← same, written)
          (write_byte_bit-IsWritten (get_or rom ((k - 1) / 8) 0) ((k - 1) % 8) 0 dir (r.bytes _)
            (omega arith) (omega arith) d).byte_is
    | inr e ↦
        rw
          (get_or-set_ne rom ((k - 1) / 8) i
            (write_byte_bit (get_or rom ((k - 1) / 8) 0) ((k - 1) % 8) dir) 0 (ground arith))
          (r.bytes i)
  ];
}
  where
    written :
        get_or
          (set rom ((k - 1) / 8) (write_byte_bit (get_or rom ((k - 1) / 8) 0) ((k - 1) % 8) dir))
          ((k - 1) / 8)
          0
        ≡ write_byte_bit (get_or rom ((k - 1) / 8) 0) ((k - 1) % 8) dir
    written = get_or-set_self rom ((k - 1) / 8) _ 0 (omega (arith, r.size))

-- A write changes the bit it names and no other.
pub rom_bit-write_rom_bit :
    (rom : List ℕ) (k j dir : ℕ)
    → IsRom rom
    → 1 ≤ k
    → k < 65
    → 1 ≤ j
    → j < 65
    → dir < 2
    → rom_bit (write_rom_bit rom k dir) j ≡ (if k == j then dir else rom_bit rom j)
unfolding write_rom_bit rom_bit
rom_bit-write_rom_bit rom k j dir r klo khi jlo jhi d =
    let q = (k - 1) / 8 in
    let old = get_or rom q 0 in
    let w =
      write_byte_bit-IsWritten old ((k - 1) % 8) ((j - 1) % 8) dir (r.bytes q) (omega arith)
        (omega arith) d in
    elim (Bool-cases (q == (j - 1) / 8)) [
      | inl e ↦
          let same : q ≡ (j - 1) / 8 = (==_iff _ _).0 e in
          let in_byte : ((k - 1) % 8 == (j - 1) % 8) ≡ (k == j) = ground arith in
          rw
            (
              ← same,
              get_or-set_self rom q (write_byte_bit old ((k - 1) % 8) dir) 0
                  (omega (arith, r.size)),
              ← in_byte,
            )
            w.bit_is
      | inr e ↦
          let apart : (k == j) ≡ false = ground arith in
          rw
            (
              get_or-set_ne rom q ((j - 1) / 8) (write_byte_bit old ((k - 1) % 8) dir) 0
                  (ground arith),
              apart,
            )
            refl
    ]
