-- ===== src/Cadence/Slots.antt =====
-- The fixed grid of the 50 Hz sensors and the stamps of the sub-steps.
use hitl_daemon.Base.{ℕ, zero, suc, ◌+◌, ◌-◌, ◌*◌, ◌/◌, ◌≤◌, ◌<◌, ◌≡◌, max, min, arith, u64_max}
use native.Mathlib.Nat.{div-le_self}
use hitl_daemon.Base.Division.{quotient_rest, quotient_mul-le}
use hitl_daemon.Cadence.{next_slot_us, substep_end_us}
use hitl_daemon.Timebase.{Timebase, plan, apply, decide}
use hitl_daemon.Timebase.Inv.{Inv}

-- The next slot of a period is after now, at most a period later, and a multiple of the period,
-- while the clock has a period left.
pub next_slot_us-on_grid :
    (now period : ℕ)
    → 1 ≤ period
    → now + period ≤ u64_max
    → (now < next_slot_us now period)
      × (next_slot_us now period ≤ now + period)
      × (next_slot_us now period ≡ (now / period + 1) * period)
unfolding next_slot_us
next_slot_us-on_grid now period p h =
    let e : max period 1 ≡ period = omega arith in
    let a = quotient_rest now period (now / period) p (omega arith) in
    let b = quotient_mul-le now period (now / period) (omega arith) in
    let q = div-le_self now period in
    let c : min (now / period + 1) u64_max ≡ now / period + 1 = omega arith in
    rw (e, c) (omega arith, omega arith, omega arith)

split_product : (n k s : ℕ) → k ≤ n → (n - k) * s + k * s ≡ n * s
split_product n k s h = grind arith

pred_product : (k s : ℕ) → 1 ≤ k → k * s ≡ (k - 1) * s + s
pred_product zero s h = absurd (omega arith)
pred_product (suc k) s h = let e : suc k - 1 ≡ k = omega arith in rw e (omega arith)

-- The stamps of an iteration's sub-steps are a step apart, end at the clock, and never fall behind
-- the clock before the iteration plus the steps done, while the clock is below its ceiling.
pub substep_end_us-follow :
    (tb : Timebase) (wall k : ℕ)
    → Inv tb
    → (plan tb wall).0.sim_us < u64_max
    → 1 ≤ k
    → k ≤ (plan tb wall).1.steps
    → let sim = (plan tb wall).0.sim_us in
      let n = (plan tb wall).1.steps in
      (substep_end_us sim n tb.step_us n ≡ sim)
      × (substep_end_us sim n tb.step_us k ≡ substep_end_us sim n tb.step_us (k - 1) + tb.step_us)
      × (tb.sim_us + k * tb.step_us ≤ substep_end_us sim n tb.step_us k)
unfolding substep_end_us plan apply
substep_end_us-follow tb wall k v h p q =
    let n = (decide tb wall).steps in
    let a = split_product n k tb.step_us q in
    let b = split_product n (k - 1) tb.step_us (omega arith) in
    let c : k * tb.step_us ≡ (k - 1) * tb.step_us + tb.step_us = pred_product k tb.step_us p in
    let z : (n - n) * tb.step_us ≡ 0 = grind arith in
    (omega (arith, z), omega (arith, a, b, c), omega (arith, a))
