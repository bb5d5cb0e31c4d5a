-- ===== src/OneWire/Pass/Once.antt =====
-- What is found, against what is on the bus: how often a ROM occurs in each.
use stm32_async_1wire.Prelude.{
  ℕ, zero, suc, ◌+◌, ◌≤◌, List, [], ◌∷◌, ◌++◌, map, ◌==◌, if◌then◌else◌, ◌≡◌, refl, sym, ap, ap₂,
  ◌∙◌, inl, inr, ==_iff, arith, Bool-cases, length,
}
use stm32_async_1wire.OneWire.{Search}
use stm32_async_1wire.OneWire.Pass.{Rom, is_empty, branch}
use stm32_async_1wire.OneWire.Pass.Bits.{IsRom}
use stm32_async_1wire.OneWire.Pass.Entries.{
  Entry, Entries, extend, extend_all, join, entries, IsBus, branch_some, branch-IsBus,
}
use stm32_async_1wire.OneWire.Pass.Walk.{bits_from}
use stm32_async_1wire.OneWire.Pass.Searches.{paths, roms_found, roms_found-paths}
use stm32_async_1wire.OneWire.Pass.Count.{
  count, count-map, count_nil, count-++, count-branch, count_none, count_high, count_empty, once,
  count_bare,
}

-- How often a ROM occurs as the path of an entry.
tally : Rom → Entries → ℕ
tally p (e, es) = count p (paths e es)

tally-extend_all :
    (b : ℕ) (p : Rom) (b' : ℕ) (x : Entries)
    → tally (b ∷ p) (extend_all b' x) ≡ (if b == b' then tally p x else 0)
unfolding tally
tally-extend_all b p b' (e, es) = count-map b p b' (e ∷ es)

tally_nil : (b : ℕ) (x : Entries) → tally [] (extend_all b x) ≡ 0
unfolding tally
tally_nil b (e, es) = count_nil b (e ∷ es)

tally-join : (p : Rom) (x y : Entries) → tally p (join x y) ≡ tally p x + tally p y
unfolding tally
tally-join p (e, es) (f, fs) = count-++ p (e ∷ es) (f ∷ fs)

-- Of the two branches, the one of bit `b` counts.
picked :
    (n : ℕ) (ds : List Rom) (b : ℕ) (p : Rom)
    → IsBus (suc n) ds
    → (if b == 0 then once (count p (branch 0 ds)) else 0)
        + (if b == 1 then once (count p (branch 1 ds)) else 0)
      ≡ once (count p (branch b ds))
unfolding once
picked n ds zero p h = omega arith
picked n ds (suc zero) p h = omega arith
picked n ds (suc (suc b)) p h =
    rw
      (sym (count-branch (suc (suc b)) p ds)
        ∙ count_high (suc n) (suc (suc b)) p ds (omega arith) h.1)
      (ground arith)

tally-entries :
    (n : ℕ) (ds : List Rom) (k z : ℕ) (p : Rom)
    → IsBus n ds
    → tally p (entries n ds k z) ≡ once (count p ds)
unfolding entries once
tally-entries zero ds k z p h = unfold tally in count_bare p ds h
tally-entries (suc n) ds k z [] h =
    let low = entries n (branch 0 ds) (k + 1) in
    let high = entries n (branch 1 ds) (k + 1) z in
    rw (count_none n ds h.1) elim (Bool-cases (is_empty (branch 0 ds))) [
      | inl e0 ↦ rw (e0, tally_nil 1 high) refl
      | inr e0 ↦ elim (Bool-cases (is_empty (branch 1 ds))) [
        | inl e1 ↦ rw (e0, e1, tally_nil 0 (low z)) refl
        | inr e1 ↦
            let joined =
              tally-join [] (extend_all 0 (low k)) (extend_all 1 high)
              ∙ ap₂ ◌+◌ (tally_nil 0 (low k)) (tally_nil 1 high) in
            rw (e0, e1) joined
      ]
    ]
tally-entries (suc n) ds k z (b ∷ p) h =
    let both = picked n ds b p h in
    let low = entries n (branch 0 ds) (k + 1) in
    let high = entries n (branch 1 ds) (k + 1) z in
    rw (count-branch b p ds) elim (Bool-cases (is_empty (branch 0 ds))) [
      | inl e0 ↦
          let e1 = branch_some n ds h e0 in
          let of_high = tally-entries n (branch 1 ds) (k + 1) z p (branch-IsBus n 1 ds h e1) in
          rw (e0, tally-extend_all b p 1 high, of_high)
            (ground (arith, rw (count_empty p (branch 0 ds) e0) at both))
      | inr e0 ↦ elim (Bool-cases (is_empty (branch 1 ds))) [
        | inl e1 ↦
            let of_low = tally-entries n (branch 0 ds) (k + 1) z p (branch-IsBus n 0 ds h e0) in
            rw (e0, e1, tally-extend_all b p 0 (low z), of_low)
              (ground (arith, rw (count_empty p (branch 1 ds) e1) at both))
        | inr e1 ↦
            let of_low = tally-entries n (branch 0 ds) (k + 1) k p (branch-IsBus n 0 ds h e0) in
            let of_high = tally-entries n (branch 1 ds) (k + 1) z p (branch-IsBus n 1 ds h e1) in
            let joined =
              tally-join (b ∷ p) (extend_all 0 (low k)) (extend_all 1 high)
              ∙ ap₂ ◌+◌ (tally-extend_all b p 0 (low k)) (tally-extend_all b p 1 high) in
            rw (e0, e1) (joined ∙ rw (of_low, of_high) both)
      ]
    ]

length-map-extend : (b : ℕ) (es : List Entry) → length (map (extend b) es) ≡ length es
length-map-extend b [] = refl
length-map-extend b (e ∷ es) = ap suc (length-map-extend b es)

length-join : (es fs : List Entry) → length (es ++ fs) ≡ length es + length fs
length-join [] fs = omega arith
length-join (e ∷ es) fs = omega (arith, length-join es fs)

passes : Entries → ℕ
passes (e, es) = suc (length es)

passes-extend_all : (b : ℕ) (x : Entries) → passes (extend_all b x) ≡ passes x
unfolding passes
passes-extend_all b (e, es) = ap suc (length-map-extend b es)

passes-join : (x y : Entries) → passes (join x y) ≡ passes x + passes y
unfolding passes
passes-join (e, es) (f, fs) = omega (arith, length-join es (f ∷ fs))

branches-le : (ds : List Rom) → length (branch 0 ds) + length (branch 1 ds) ≤ length ds
unfolding branch
branches-le [] = omega arith
branches-le ([] ∷ ds) = omega (arith, branches-le ds)
branches-le ((b ∷ d) ∷ ds) = ground (arith, branches-le ds)

-- There is a pass for each device at most.
passes-le : (n : ℕ) (ds : List Rom) (k z : ℕ) → IsBus n ds → passes (entries n ds k z) ≤ length ds
unfolding entries
passes-le zero [] k z h = absurd (cc h.0)
passes-le zero (d ∷ ds) k z h = unfold passes in omega arith
passes-le (suc n) ds k z h =
    let low = entries n (branch 0 ds) (k + 1) in
    let high = entries n (branch 1 ds) (k + 1) z in
    let both = branches-le ds in
    elim (Bool-cases (is_empty (branch 0 ds))) [
      | inl e0 ↦
          let e1 = branch_some n ds h e0 in
          let of_high = passes-le n (branch 1 ds) (k + 1) z (branch-IsBus n 1 ds h e1) in
          rw (e0, passes-extend_all 1 high) (omega (arith, of_high, both))
      | inr e0 ↦ elim (Bool-cases (is_empty (branch 1 ds))) [
        | inl e1 ↦
            let of_low = passes-le n (branch 0 ds) (k + 1) z (branch-IsBus n 0 ds h e0) in
            rw (e0, e1, passes-extend_all 0 (low z)) (omega (arith, of_low, both))
        | inr e1 ↦
            let of_low = passes-le n (branch 0 ds) (k + 1) k (branch-IsBus n 0 ds h e0) in
            let of_high = passes-le n (branch 1 ds) (k + 1) z (branch-IsBus n 1 ds h e1) in
            let joined : passes (join (extend_all 0 (low k)) (extend_all 1 high)) ≤ length ds =
              rw
                (
                  passes-join (extend_all 0 (low k)) (extend_all 1 high),
                  passes-extend_all 0 (low k),
                  passes-extend_all 1 high,
                )
                (omega (arith, of_low, of_high, both)) in
            rw (e0, e1) joined
      ]
    ]

-- The paths of the passes are on the bus.
pub path_on_bus :
    (ds : List Rom) (p : Rom)
    → IsBus 64 ds
    → 1 ≤ count p (paths (entries 64 ds 1 0).0 (entries 64 ds 1 0).1)
    → 1 ≤ count p ds
unfolding tally once
path_on_bus ds p h l =
    let e = tally-entries 64 ds 1 0 p h in
    elim (Bool-cases (count p ds == 0)) [
      | inl z ↦
          let absent : once (count p ds) ≡ 0 = ap once ((==_iff _ _).0 z) in
          absurd (omega (arith, l, e ∙ absent))
      | inr z ↦ ground arith
    ]

pub passes_lem : (ds : List Rom) → IsBus 64 ds → suc (length (entries 64 ds 1 0).1) ≤ length ds
unfolding passes
passes_lem ds h = passes-le 64 ds 1 0 h

module _ {S : Type 0} where
  -- On a bus of devices, a search finds the path of each ROM that is there, and finds it once, and finds no
  -- other; whatever is in the ROM buffer at first.
  pub found_once :
      (fuel : ℕ) (ds : List Rom) (c : Search S) (p : Rom)
      → IsRom c.rom
      → IsBus 64 ds
      → c.last_discrepancy ≡ 0
      → length (entries 64 ds 1 0).1 ≤ fuel
      → count p (map (bits_from 64 1) (roms_found (suc fuel) ds c)) ≡ once (count p ds)
  unfolding tally
  found_once fuel ds c p r h e l =
      ap (count p) (roms_found-paths fuel ds c r h e l) ∙ tally-entries 64 ds 1 0 p h
