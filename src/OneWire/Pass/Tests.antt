-- ===== src/OneWire/Pass/Tests.antt =====
-- A bus of two devices whose ROMs differ in their second byte.
use stm32_async_1wire.Prelude.{
  ℕ, zero, suc, ◌<◌, true, false, List, [], ◌∷◌, ◌++◌, map, get_or, length, replicate, All, none,
  some, ◌≡◌, refl, arith,
}
use stm32_async_1wire.Port.Samples.{idle_port}
use stm32_async_1wire.Wire.{crc8, crc8_from, crc8_bits}
use stm32_async_1wire.OneWire.{Bus, Search, Sink, done, search_start}
use stm32_async_1wire.OneWire.Pass.Bits.{IsRom}
use stm32_async_1wire.OneWire.Pass.Walk.{pass, IsPassed, pass-IsPassed}
use stm32_async_1wire.OneWire.Pass.Searches.{roms_found}
use stm32_async_1wire.OneWire.Pass.Count.{count, once}
use stm32_async_1wire.OneWire.Pass.Roms.{rom_path, roms_found-once}
use stm32_async_1wire.OneWire.Pass.Wired.{deaf}
use stm32_async_1wire.OneWire.Pass.Complete.{IsComplete, search_start-IsComplete}

abbrev first_rom : List ℕ
first_rom = 0x28 ∷ 1 ∷ 0 ∷ 0 ∷ 0 ∷ 0 ∷ 0 ∷ 41 ∷ []

abbrev second_rom : List ℕ
second_rom = 0x28 ∷ 3 ∷ 0 ∷ 0 ∷ 0 ∷ 0 ∷ 0 ∷ 71 ∷ []

-- A sink that keeps what it is told.
abbrev keep : Sink (List (List ℕ))
keep rom s = (s ++ rom ∷ [], 0)

abbrev finished_search : Search (List (List ℕ))
finished_search = record {
  phase = done;
  command = 0xf0;
  family = 0;
  rom = replicate 8 0;
  id_bit_number = 1;
  last_discrepancy = 0;
  last_zero = 0;
  found = 0;
  max_found = 4;
  finished = true;
  prev_leaf_valid = false;
  prev_leaf = replicate 8 0;
  sink = none;
}

abbrev idle_bus : Bus (List (List ℕ))
idle_bus = record {
  port = idle_port;
  search = finished_search;
  pair_pulse = 490 ∷ 620 ∷ [];
  pulse3 = replicate 3 0;
  owner = [];
}

bytes_below : (xs : List ℕ) → All (λ (b : ℕ). b < 256) xs → (i : ℕ) → get_or xs i 0 < 256
bytes_below [] h i = omega arith
bytes_below (x ∷ xs) h zero = h.0
bytes_below (x ∷ xs) h (suc i) = bytes_below xs h.1 i

some-IsRom : (xs : List ℕ) → length xs ≡ 8 → All (λ (b : ℕ). b < 256) xs → IsRom xs
some-IsRom xs e h = record { size = e; bytes = bytes_below xs h }

first-IsRom : IsRom first_rom
first-IsRom = some-IsRom first_rom refl (ground arith)

second-IsRom : IsRom second_rom
second-IsRom = some-IsRom second_rom refl (ground arith)

zero-IsRom : IsRom (replicate 8 0)
zero-IsRom = some-IsRom (replicate 8 0) refl (ground arith)

first_checked : crc8 first_rom 8 ≡ 0
unfolding crc8 crc8_from crc8_bits
first_checked = refl

second_checked : crc8 second_rom 8 ≡ 0
unfolding crc8 crc8_from crc8_bits
second_checked = refl

pass-IsPassed_example :
    IsPassed 64
      (rom_path first_rom ∷ rom_path second_rom ∷ [])
      finished_search
      (pass 64 (rom_path first_rom ∷ rom_path second_rom ∷ []) finished_search)
pass-IsPassed_example =
    pass-IsPassed 64 (rom_path first_rom ∷ rom_path second_rom ∷ []) finished_search zero-IsRom
      (omega arith) (omega arith)

roms_found-once_example :
    count second_rom (roms_found 2 (map rom_path (first_rom ∷ second_rom ∷ [])) finished_search)
    ≡ once (count second_rom (first_rom ∷ second_rom ∷ []))
roms_found-once_example =
    roms_found-once 1 first_rom (second_rom ∷ []) finished_search second_rom
      (first-IsRom, (second-IsRom, tt)) second-IsRom zero-IsRom refl (omega arith)

search_start-IsComplete_example :
    IsComplete keep 0xf0 0x28
      (first_rom ∷ second_rom ∷ [])
      (record { bus = search_start idle_bus (some keep) 8 0xf0 0x28; stage = deaf; active = [] })
search_start-IsComplete_example =
    search_start-IsComplete idle_bus keep 8 0xf0 0x28 first_rom (second_rom ∷ []) deaf [] refl
      (λ rom s. refl) (first-IsRom, (second-IsRom, tt)) (first_checked, (second_checked, tt))
      (omega arith) (omega arith)
