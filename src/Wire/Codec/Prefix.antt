-- ===== src/Wire/Codec/Prefix.antt =====
-- The addressing prefixes of src/ow_glue.h, and the bytes they put.
use stm32_async_1wire.Prelude.{
  ℕ, ◌≤◌, Bool, true, false, List, [], ◌∷◌, take, length, All, if◌then◌else◌, ◌≡◌, refl, arith,
  take_all,
}
use stm32_async_1wire.Wire.{
  Build, encode_bytes, encode_match_rom, encode_skip_rom, match_rom, skip_rom,
}
use stm32_async_1wire.Wire.Codec.Tables.{
  IsByte, IsBuilt, start-IsBuilt, put_byte-IsBuilt, put_bytes-IsBuilt,
}

-- Match ROM with a ROM, or Skip ROM.
abbrev pub prefix : Bool → List ℕ → List ℕ
prefix use_match rom = if use_match then match_rom ∷ rom else skip_rom ∷ []

-- The prefix as the drivers build it.
abbrev pub encode_prefix : Bool → Build → List ℕ → Build × ℕ
encode_prefix use_match b rom = if use_match then encode_match_rom b rom else encode_skip_rom b

pub encode_prefix-IsBuilt :
    (use_match : Bool) (table rom : List ℕ) (size : ℕ)
    → length table ≡ size
    → 72 ≤ size
    → length rom ≡ 8
    → All IsByte rom
    → IsBuilt
        (encode_prefix use_match (record { table = table; cursor = 0 }) rom).0
        (prefix use_match rom)
        size
unfolding encode_match_rom encode_skip_rom encode_bytes
encode_prefix-IsBuilt true table rom size s room l h = rw (whole) (
    put_bytes-IsBuilt _ (match_rom ∷ []) rom size h (omega arith) (
      put_byte-IsBuilt _ [] match_rom size (omega arith) (omega arith)
        (rw s at (start-IsBuilt table))))
  where
    whole : take 8 rom ≡ rom
    whole = rw l at (take_all rom)
encode_prefix-IsBuilt false table rom size s room l h =
    put_byte-IsBuilt _ [] skip_rom size (omega arith) (omega arith) (rw s at (start-IsBuilt table))

pub encode_prefix_count :
    (use_match : Bool) (b : Build) (rom : List ℕ)
    → length rom ≡ 8
    → (encode_prefix use_match b rom).1 ≡ length (prefix use_match rom)
unfolding encode_match_rom encode_skip_rom encode_bytes
encode_prefix_count true b rom l = ground arith
encode_prefix_count false b rom l = refl

-- A prefix has at most nine bytes.
pub length-prefix :
    (use_match : Bool) (rom : List ℕ) → length rom ≡ 8 → length (prefix use_match rom) ≤ 9
length-prefix true rom h = omega arith
length-prefix false rom h = omega arith
