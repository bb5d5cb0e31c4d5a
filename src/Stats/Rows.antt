-- ===== src/Stats/Rows.antt =====
-- The sensor table, and the counters.
use stm32_async_1wire.Prelude.{
  ℕ, zero, suc, ◌+◌, ◌^◌, ◌≤◌, ◌<◌, inl, inr, true, List, [], ◌∷◌, some, get_or, set, take, ◌≡◌,
  refl, ◌∙◌, arith, length, length-set, Option-cases, get_or-set_self,
}
use stm32_async_1wire.Wire.{u32}
use stm32_async_1wire.OneWire.{same_bytes}
use stm32_async_1wire.Stats.Context.{
  Stats, Sensor, hist_bucket, find_sensor, alloc_sensor, found_or_alloc, sensor_find_or_alloc,
  count_pulses, no_row,
}

-- A longer pulse is counted in the same bucket or in a later one, and every bucket lies in the
-- histogram.
hist_bucket_mono : (p q : ℕ) → p ≤ q → (hist_bucket p ≤ hist_bucket q) × (hist_bucket q < 16)
unfolding hist_bucket
hist_bucket_mono p q h = ground arith

find_sensor_sound :
    (left i k : ℕ) (sensors : List Sensor) (rom : List ℕ)
    → find_sensor left i sensors rom ≡ some k
    → (k < i + left) × (same_bytes 8 (get_or sensors k no_row).rom rom ≡ true)
unfolding find_sensor
find_sensor_sound zero i k sensors rom h = cc
find_sensor_sound (suc left) i k sensors rom h =
    ground (arith, find_sensor_sound left (i + 1) k sensors rom)

same_bytes-take : (n : ℕ) (rom : List ℕ) → n ≤ length rom → same_bytes n (take n rom) rom ≡ true
unfolding same_bytes
same_bytes-take zero rom h = refl
same_bytes-take (suc n) [] h = absurd (omega arith)
same_bytes-take (suc n) (x ∷ rom) h = ground (arith, same_bytes-take n rom)

-- What the table promises after a lookup: the row handed out is in use and holds the ROM; without a
-- row the table is full.
pub record IsLookedUp (rom : List ℕ) (st : Stats) (si : ℕ) : Type 0 where
  pub count_le : st.sensor_count ≤ 8
  pub in_use : si < 8 → si < st.sensor_count
  pub holds : si < 8 → same_bytes 8 (get_or st.sensors si no_row).rom rom ≡ true
  pub full : 8 ≤ si → st.sensor_count ≡ 8

alloc-IsLookedUp :
    (st : Stats) (rom : List ℕ)
    → length st.sensors ≡ 8
    → st.sensor_count ≤ 8
    → length rom ≡ 8
    → IsLookedUp rom (alloc_sensor st rom).0 (alloc_sensor st rom).1
unfolding alloc_sensor
alloc-IsLookedUp st rom l c r = ground (
  arith,
  same_bytes-take 8 rom,
  get_or-set_self st.sensors st.sensor_count
      (record (get_or st.sensors st.sensor_count no_row) {
        rom = take 8 rom;
        min_pulse = 0xff;
        max_pulse = 0;
      })
      no_row,
)

-- A lookup hands out a row in use that holds the ROM, or finds the table full.
pub sensor_find_or_alloc-IsLookedUp :
    (st : Stats) (rom : List ℕ)
    → length st.sensors ≡ 8
    → st.sensor_count ≤ 8
    → length rom ≡ 8
    → IsLookedUp rom (sensor_find_or_alloc st (some rom)).0 (sensor_find_or_alloc st (some rom)).1
unfolding sensor_find_or_alloc found_or_alloc
sensor_find_or_alloc-IsLookedUp st rom l c r =
    elim (Option-cases (find_sensor st.sensor_count 0 st.sensors rom)) [
      | inl e ↦ rw e (alloc-IsLookedUp st rom l c r)
      | inr (k, e) ↦
          rw e (let h = find_sensor_sound st.sensor_count 0 k st.sensors rom e in ground arith)
    ]

abbrev pub total : List ℕ → ℕ
total [] = 0
total (x ∷ xs) = x + total xs

total-set :
    (xs : List ℕ) (i v : ℕ) → i < length xs → total (set xs i v) + get_or xs i 0 ≡ total xs + v
total-set [] i v h = absurd (omega arith)
total-set (x ∷ xs) zero v h = omega arith
total-set (x ∷ xs) (suc i) v h = omega (arith, total-set xs i v (omega arith))

get_or_le_total : (xs : List ℕ) (i : ℕ) → get_or xs i 0 ≤ total xs
get_or_le_total [] i = omega arith
get_or_le_total (x ∷ xs) zero = omega arith
get_or_le_total (x ∷ xs) (suc i) = omega (arith, get_or_le_total xs i)

count_step_total :
    (hist : List ℕ) (p : ℕ)
    → length hist ≡ 16
    → total hist + 1 < 2 ^ 32
    → total (set hist (hist_bucket p) (u32 (get_or hist (hist_bucket p) 0 + 1))) ≡ total hist + 1
count_step_total hist p l h =
    let inside = (hist_bucket_mono p p (omega arith)).1 in
    let small = get_or_le_total hist (hist_bucket p) in
    let update =
      total-set hist (hist_bucket p) (u32 (get_or hist (hist_bucket p) 0 + 1)) (omega arith) in
    omega arith

-- While no counter can overflow, the buckets of the histogram add up: each pulse is counted once.
pub total-count_pulses :
    (si : ℕ) (pulses : List ℕ) (st : Stats)
    → length st.histogram ≡ 16
    → total st.histogram + length pulses < 2 ^ 32
    → total (count_pulses si pulses st).histogram ≡ total st.histogram + length pulses
unfolding count_pulses
total-count_pulses si [] st l h = omega arith
total-count_pulses si (p ∷ pulses) st l h =
    let step = count_step_total st.histogram p l (omega arith) in
    let size =
      length-set st.histogram (hist_bucket p) (u32 (get_or st.histogram (hist_bucket p) 0 + 1)) in
    total-count_pulses si pulses _ (size ∙ l) (omega arith) ∙ omega arith
