-- ===== src/Recorder/Range.antt =====
-- The extremes of a round.
use stm32_async_1wire.Prelude.{
  ℕ, zero, suc, ◌<◌, ◌⊎◌, inl, inr, Bool, true, false, not, ◌||◌, List, get_or, ◌≡◌, refl, ap,
  arith, Bool-cases,
}
use stm32_async_1wire.Prelude.Int.{ℤ, ◌≤ℤ◌, ltb_ℤ}
use stm32_async_1wire.Ds18b20.Context.{temp_error_generic}
use stm32_async_1wire.Recorder.Records.{Extremes, see, extremes}

abbrev pub temp_at : List ℤ → ℕ → ℤ
temp_at temps i = get_or temps i temp_error_generic

-- Of the sensors below `n` that were measured, one has the maximum and one the minimum; without one,
-- nothing was measured.
pub record IsRange (n : ℕ) (temps : List ℤ) (temps_ok : List Bool) (x : Extremes) : Type 0 where
  pub hi_measured :
      x.have ≡ true
      → (x.hi_i < n) × ((get_or temps_ok x.hi_i false ≡ true) × (temp_at temps x.hi_i ≡ x.hi))
  pub lo_measured :
      x.have ≡ true
      → (x.lo_i < n) × ((get_or temps_ok x.lo_i false ≡ true) × (temp_at temps x.lo_i ≡ x.lo))
  pub bounds :
      (i : ℕ)
      → i < n
      → get_or temps_ok i false ≡ true
      → (x.have ≡ true) × ((temp_at temps i ≤ℤ x.hi) × (x.lo ≤ℤ temp_at temps i))

up_to : (i n : ℕ) → i < suc n → (i < n) ⊎ (i ≡ n)
up_to i n l = ground arith

see-IsRange :
    (n : ℕ) (temps : List ℤ) (temps_ok : List Bool) (x : Extremes)
    → IsRange n temps temps_ok x
    → get_or temps_ok n false ≡ true
    → IsRange (suc n) temps temps_ok (see x (temp_at temps n) n)
see-IsRange n temps temps_ok x r ok = record {
  hi_measured = λ h. elim (Bool-cases (not x.have || ltb_ℤ x.hi (temp_at temps n))) [
    | inl e ↦ rw e (omega arith, (ok, refl))
    | inr e ↦ let old = r.hi_measured (ground arith) in rw e (omega (arith, old.0), old.1)
  ];
  lo_measured = λ h. elim (Bool-cases (not x.have || ltb_ℤ (temp_at temps n) x.lo)) [
    | inl e ↦ rw e (omega arith, (ok, refl))
    | inr e ↦ let old = r.lo_measured (ground arith) in rw e (omega (arith, old.0), old.1)
  ];
  bounds = λ i l h. elim (up_to i n l) [
    | inl below ↦ let old = r.bounds i below h in (refl, ground (arith, old.0, old.1.0, old.1.1))
    | inr at ↦ rw at (refl, ground arith)
  ];
}

-- The loop over `n` sensors finds, if one was measured, a highest and a lowest temperature of those
-- measured, each with a measured sensor that has it.
pub extremes-IsRange :
    (n : ℕ) (temps : List ℤ) (temps_ok : List Bool)
    → IsRange n temps temps_ok (extremes n temps temps_ok)
unfolding extremes
extremes-IsRange zero temps temps_ok = record {
  hi_measured = λ h. cc h;
  lo_measured = λ h. cc h;
  bounds = λ i l h. absurd (omega arith);
}
extremes-IsRange (suc n) temps temps_ok =
    let ih = extremes-IsRange n temps temps_ok in
    elim (Bool-cases (get_or temps_ok n false)) [
      | inl e ↦ rw e (see-IsRange n temps temps_ok _ ih e)
      | inr e ↦ rw e (record {
        hi_measured = λ h. ((omega (arith, (ih.hi_measured h).0)), (ih.hi_measured h).1);
        lo_measured = λ h. ((omega (arith, (ih.lo_measured h).0)), (ih.lo_measured h).1);
        bounds = λ i l h. elim (up_to i n l) [
          | inl below ↦ ih.bounds i below h
          | inr at ↦ absurd (cc (h, ap (λ (k : ℕ). get_or temps_ok k false) at, e))
        ];
      })
    ]
