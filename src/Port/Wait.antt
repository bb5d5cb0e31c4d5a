-- ===== src/Port/Wait.antt =====
-- `ow_port_plan_wait`: the planned wait covers the request with the fewest periods.
use stm32_async_1wire.Prelude.{
  ℕ, ◌+◌, ◌-◌, ◌*◌, ◌/◌, ◌%◌, ◌≤◌, ◌<◌, ◌==◌, ltb, if◌then◌else◌, ◌≡◌, arith, inl, inr, Bool-cases,
}
use stm32_async_1wire.Wire.{u8, u16}
use stm32_async_1wire.Port.{plan_periods, plan_wait}

-- The longest wait that the timer can express.
abbrev pub max_wait : ℕ
max_wait = 256 * 65535

abbrev pub round_up : ℕ → ℕ → ℕ
round_up us n = us / n + (if us % n == 0 then 0 else 1)

-- `us / n` rounded up covers `us`, by less than `n`.
round_up_bounds : (us n : ℕ) → 0 < n → (us ≤ round_up us n * n) × (round_up us n * n < us + n)
round_up_bounds us n h = elim (Bool-cases (us % n == 0)) [
  | inl e ↦ rw e (grind arith)
  | inr e ↦ rw e (grind arith)
]

-- No smaller factor covers it.
round_up_least : (us n k : ℕ) → 0 < n → us ≤ k * n → round_up us n ≤ k
round_up_least us n k h c = elim (Bool-cases (us % n == 0)) [
  | inl e ↦ rw e (grind arith)
  | inr e ↦ rw e (grind arith)
]

plan_periods_bounds :
    (us : ℕ)
    → (1 ≤ plan_periods us)
      × (plan_periods us ≤ 256)
      × (us ≤ max_wait → us ≤ plan_periods us * 65535)
unfolding plan_periods
plan_periods_bounds us = ground arith

plan_periods_least : (us k : ℕ) → us ≤ k * 65535 → plan_periods us ≤ k + (1 - k)
unfolding plan_periods
plan_periods_least us k h = ground arith

within : (us a k : ℕ) → a ≤ 65535 → us ≤ a * k → us ≤ k * 65535
within us a k h c = grind arith

period : ℕ → ℕ
period us = round_up us (plan_periods us)

clamp_exact :
    (p : ℕ) → 1 ≤ p → p ≤ 65535 → u16 (if ltb 65535 p then 65535 else if p == 0 then 1 else p) ≡ p
clamp_exact p lo hi = ground arith

last_exact : (n : ℕ) → 1 ≤ n → n ≤ 256 → u8 (n - 1) ≡ n - 1
last_exact n lo hi = omega arith

-- The registers hold the planned values unchanged, up to the timer's reach.
plan_wait_exact :
    (us : ℕ)
    → 0 < us
    → us ≤ max_wait
    → (plan_wait us ≡ (period us, plan_periods us - 1)) × (1 ≤ period us) × (period us ≤ 65535)
unfolding plan_wait period
plan_wait_exact us pos le =
    let n = plan_periods us in
    let b = plan_periods_bounds us in
    let cover = round_up_bounds us n b.0 in
    let small : round_up us n ≤ 65535 = round_up_least us n 65535 b.0 (omega (arith, b.2 le)) in
    let big : 1 ≤ round_up us n = grind arith in
    (λ i. (clamp_exact (round_up us n) big small i, last_exact n b.0 b.1 i), big, small)

-- A positive wait within the timer's reach: the period fits the 16-bit register and the repetitions
-- the 8-bit one, the total is at least the request and exceeds it by less than the number of periods,
-- no plan that covers the request has fewer periods, and with as many none has a shorter period.
pub plan_wait_lem :
    (us : ℕ)
    → 0 < us
    → us ≤ max_wait
    → let (arr, rcr) = plan_wait us in
      (1 ≤ arr)
      × (arr ≤ 65535)
      × (rcr ≤ 255)
      × (us ≤ arr * (rcr + 1))
      × (arr * (rcr + 1) < us + (rcr + 1))
      × ((a r : ℕ) → a ≤ 65535 → us ≤ a * (r + 1) → rcr ≤ r)
      × ((a : ℕ) → us ≤ a * (rcr + 1) → arr ≤ a)
unfolding period
plan_wait_lem us pos le =
    let n = plan_periods us in
    let b = plan_periods_bounds us in
    let exact = plan_wait_exact us pos le in
    let cover = round_up_bounds us n b.0 in
    let again : n - 1 + 1 ≡ n = omega arith in
    rw exact.0 (
      exact.1,
      exact.2,
      omega arith,
      rw again cover.0,
      rw again cover.1,
      λ a r ha h. omega (arith, plan_periods_least us (r + 1) (within us a (r + 1) ha h)),
      λ a h. round_up_least us n a b.0 (rw again at h),
    )

-- A request beyond the timer's reach gets its longest wait.
pub plan_wait_clamped : (us : ℕ) → max_wait < us → plan_wait us ≡ (65535, 255)
unfolding plan_wait plan_periods
plan_wait_clamped us h = ground arith
