-- ===== src/OneWire/Pass/Count.antt =====
-- How often a ROM occurs among devices and among paths.
use stm32_async_1wire.Prelude.{
  ℕ, zero, suc, ◌+◌, ◌≤◌, ◌<◌, Bool, true, false, ◌&&◌, List, [], ◌∷◌, ◌++◌, map, ◌==◌,
  if◌then◌else◌, ◌≡◌, refl, arith, length, All,
}
use stm32_async_1wire.OneWire.Pass.{Rom, is_empty, branch}
use stm32_async_1wire.OneWire.Pass.Entries.{Entry, extend, IsBus}

unfoldable pub same_rom : Rom → Rom → Bool
same_rom [] [] = true
same_rom (x ∷ p) (y ∷ q) = x == y && same_rom p q
same_rom _ _ = false

-- How often a ROM occurs.
unfoldable pub count : Rom → List Rom → ℕ
count p [] = 0
count p (q ∷ qs) = let rest = count p qs in if same_rom p q then suc rest else rest

abbrev firsts : List Entry → List Rom
firsts es = map (λ (u : Entry). u.0) es

pub count-map :
    (b : ℕ) (p : Rom) (b' : ℕ) (es : List Entry)
    → count (b ∷ p) (firsts (map (extend b') es)) ≡ (if b == b' then count p (firsts es) else 0)
unfolding count same_rom
count-map b p b' [] = ground arith
count-map b p b' (e ∷ es) = ground (arith, count-map b p b' es)

pub count_nil : (b : ℕ) (es : List Entry) → count [] (firsts (map (extend b) es)) ≡ 0
unfolding count same_rom
count_nil b [] = refl
count_nil b (e ∷ es) = count_nil b es

pub count-++ :
    (p : Rom) (es fs : List Entry)
    → count p (firsts (es ++ fs)) ≡ count p (firsts es) + count p (firsts fs)
unfolding count
count-++ p [] fs = omega arith
count-++ p (e ∷ es) fs = ground (arith, count-++ p es fs)

pub count-branch : (b : ℕ) (p : Rom) (ds : List Rom) → count (b ∷ p) ds ≡ count p (branch b ds)
unfolding count same_rom branch
count-branch b p [] = refl
count-branch b p ([] ∷ ds) = count-branch b p ds
count-branch b p ((x ∷ rest) ∷ ds) = ground (arith, count-branch b p ds)

-- ROMs of no bits, or of some.
pub count_none :
    (n : ℕ) (ds : List Rom)
    → All (λ (d : Rom). (length d ≡ suc n) × All (λ (b : ℕ). b < 2) d) ds
    → count [] ds ≡ 0
unfolding count same_rom
count_none n [] h = refl
count_none n ([] ∷ ds) h = absurd (omega (arith, h.0.0))
count_none n ((b ∷ d) ∷ ds) h = count_none n ds h.1

pub count_high :
    (n b : ℕ) (p : Rom) (ds : List Rom)
    → 2 ≤ b
    → All (λ (d : Rom). (length d ≡ n) × All (λ (x : ℕ). x < 2) d) ds
    → count (b ∷ p) ds ≡ 0
unfolding count same_rom
count_high n b p [] l h = refl
count_high n b p ([] ∷ ds) l h = count_high n b p ds l h.1
count_high n b p ((x ∷ d) ∷ ds) l h =
    let far : (b == x) ≡ false = ground (arith, h.0.1.0) in rw (far) (count_high n b p ds l h.1)

pub count_empty : (p : Rom) (ds : List Rom) → is_empty ds ≡ true → count p ds ≡ 0
unfolding count
count_empty p [] h = refl
count_empty p (d ∷ ds) h = absurd (cc h)

-- Any number of occurrences, as one.
unfoldable pub once : ℕ → ℕ
once zero = 0
once (suc n) = 1

-- Devices of no bits.
pub count_bare : (p : Rom) (ds : List Rom) → IsBus 0 ds → count p ([] ∷ []) ≡ once (count p ds)
unfolding count same_rom once
count_bare p [] h = absurd (cc h.0)
count_bare [] ([] ∷ ds) h = refl
count_bare (x ∷ p) ([] ∷ []) h = refl
count_bare (x ∷ p) ([] ∷ (d ∷ ds)) h = count_bare (x ∷ p) (d ∷ ds) (refl, h.1.1)
count_bare p ((b ∷ d) ∷ ds) h = absurd (omega (arith, h.1.0.0))
