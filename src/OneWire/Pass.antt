-- ===== src/OneWire/Pass.antt =====
-- The search's pass through the ROM bits, against an ideal bus: a list of devices, each its ROM as a
-- list of bits, all of one length. Devices answer together, and a 0 wins.
pub mod Bits
pub mod Entries
pub mod Order
pub mod Walk
pub mod Searches
pub mod Count
pub mod Once
pub mod Roms
pub mod Served
pub mod Wired
pub mod Armed
pub mod Simulated
pub mod Followed
pub mod Same
pub mod Turn
pub mod Leaf
pub mod Rounds
pub mod Told
pub mod Finished
pub mod Complete
mod Tests
use stm32_async_1wire.Prelude.{
  ℕ, zero, suc, ◌+◌, Bool, true, false, not, List, [], ◌∷◌, ltb, ◌==◌, if◌then◌else◌,
}

abbrev pub Rom : Type 0
Rom = List ℕ

abbrev pub is_empty : List Rom → Bool
is_empty [] = true
is_empty (d ∷ ds) = false

-- The devices whose next bit is `bit`, behind that bit.
unfoldable pub branch : ℕ → List Rom → List Rom
branch bit [] = []
branch bit ([] ∷ ds) = branch bit ds
branch bit ((b ∷ rest) ∷ ds) = if b == bit then rest ∷ branch bit ds else branch bit ds

-- What the active devices answer: the bit is 0 if one has a 0, the complement is 0 if one has a 1.
unfoldable pub answer : List Rom → ℕ × ℕ
answer ds = (if is_empty (branch 0 ds) then 1 else 0, if is_empty (branch 1 ds) then 1 else 0)

abbrev pub head_bit : Rom → ℕ
head_bit [] = 0
head_bit (b ∷ rest) = b

abbrev pub tail_bits : Rom → Rom
tail_bits [] = []
tail_bits (b ∷ rest) = rest

-- The choice of a direction and of the last zero, at position `k`, with the previous ROM's bit there.
unfoldable pub choose : ℕ → ℕ → ℕ → ℕ → ℕ × ℕ → ℕ × ℕ
choose k discrepancy previous zero_at (id_bit, cmp_bit) =
    if not (id_bit == cmp_bit)
    then (id_bit, zero_at)
    else if ltb k discrepancy
    then if previous == 0 then (0, k) else (1, zero_at)
    else if k == discrepancy
    then (1, zero_at)
    else (0, k)

-- A pass over `n` bits from position `k`: the path taken, and the last zero at a discrepancy.
unfoldable pub walk : ℕ → List Rom → ℕ → ℕ → Rom → ℕ → Rom × ℕ
walk zero ds k discrepancy previous zero_at = ([], zero_at)
walk (suc n) ds k discrepancy previous zero_at =
    let (bit, zero') = choose k discrepancy (head_bit previous) zero_at (answer ds) in
    let (path, last) = walk n (branch bit ds) (k + 1) discrepancy (tail_bits previous) zero' in
    (bit ∷ path, last)
