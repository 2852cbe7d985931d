-- ===== src/Timebase/Decide.antt =====
-- The bounds of one pacing decision (`Timebase::decide`).
use hitl_daemon.Base.{
  ℕ, ◌-◌, ◌*◌, ◌/◌, ◌≤◌, ◌<◌, ◌≡◌, ◌⊎◌, inl, inr, ap, max, true, false, ltb, tests, arith,
  Bool-cases, u32_max, u64_max,
}
use hitl_daemon.Base.Division.{steps_mul-le}
use hitl_daemon.Timebase.{Timebase, decide, steps_for}

-- What `Timebase::new` establishes of the configuration and no call changes: the ranges of the
-- machine integers, and a positive step and allowance.
pub record IsConfigured (tb : Timebase) : Type 0 where
  pub step_pos : 1 ≤ tb.step_us
  pub step_fits : tb.step_us ≤ u64_max
  pub catchup_pos : 1 ≤ tb.max_catchup_steps
  pub catchup_fits : tb.max_catchup_steps ≤ u32_max

steps_for-le_catchup :
    (tb : Timebase) (d : ℕ)
    → IsConfigured tb
    → (1 ≤ steps_for tb d) × (steps_for tb d ≤ tb.max_catchup_steps)
unfolding steps_for
steps_for-le_catchup tb d c = omega arith

steps_for-le_deficit : (tb : Timebase) (d : ℕ) → steps_for tb d * tb.step_us ≤ max d tb.step_us
unfolding steps_for
steps_for-le_deficit tb d = steps_mul-le d tb.step_us (steps_for tb d) (omega arith)

steps_for-le_threshold :
    (tb : Timebase) (d : ℕ)
    → IsConfigured tb
    → steps_for tb d * tb.step_us ≤ max tb.gap_threshold_us tb.step_us
unfolding steps_for
steps_for-le_threshold tb d c =
    let e : max tb.step_us 1 ≡ tb.step_us = omega arith in
    let q = ap (λ (s : ℕ). tb.gap_threshold_us / s) e in
    steps_mul-le tb.gap_threshold_us tb.step_us (steps_for tb d) (omega (arith, q))

-- The plan's `u32` holds the step count.
pub decide-steps_for :
    (tb : Timebase) (wall : ℕ)
    → IsConfigured tb
    → (decide tb wall).steps ≡ steps_for tb (wall - tb.sim_us)
unfolding decide
decide-steps_for tb wall c = omega (arith, steps_for-le_catchup tb (wall - tb.sim_us) c)

pub decide_steps :
    (tb : Timebase) (wall : ℕ)
    → IsConfigured tb
    → (1 ≤ (decide tb wall).steps) × ((decide tb wall).steps ≤ tb.max_catchup_steps)
decide_steps tb wall c =
    rw (decide-steps_for tb wall c) (steps_for-le_catchup tb (wall - tb.sim_us) c)

-- One decision absorbs at most the deficit, and one step where the deficit is smaller.
pub absorbed-le_deficit :
    (tb : Timebase) (wall : ℕ)
    → IsConfigured tb
    → (decide tb wall).steps * tb.step_us ≤ max (wall - tb.sim_us) tb.step_us
absorbed-le_deficit tb wall c =
    rw (decide-steps_for tb wall c) (steps_for-le_deficit tb (wall - tb.sim_us))

-- It also stays within the gap threshold, and one step where the threshold is smaller.
pub absorbed-le_threshold :
    (tb : Timebase) (wall : ℕ)
    → IsConfigured tb
    → (decide tb wall).steps * tb.step_us ≤ max tb.gap_threshold_us tb.step_us
absorbed-le_threshold tb wall c =
    rw (decide-steps_for tb wall c) (steps_for-le_threshold tb (wall - tb.sim_us) c)

pub record IsGap (tb : Timebase) (wall : ℕ) : Type 0 where
  pub gap : (decide tb wall).gap ≡ true
  pub over : tb.gap_threshold_us < wall - tb.sim_us
  pub lost : (decide tb wall).discarded_us ≡ wall - tb.sim_us - (decide tb wall).steps * tb.step_us

pub record IsPaid (tb : Timebase) (wall : ℕ) : Type 0 where
  pub no_gap : (decide tb wall).gap ≡ false
  pub within : wall - tb.sim_us ≤ tb.gap_threshold_us
  pub kept : (decide tb wall).discarded_us ≡ 0

-- A decision is a gap above the threshold, and discards what it leaves unabsorbed; or it is no gap
-- and discards nothing.
pub decide-cases :
    (tb : Timebase) (wall : ℕ) → IsConfigured tb → wall ≤ u64_max → IsGap tb wall ⊎ IsPaid tb wall
unfolding decide
decide-cases tb wall c h = elim (Bool-cases (ltb tb.gap_threshold_us (wall - tb.sim_us))) [
  | inl e ↦ inl (record { gap = e; over = omega tests; lost = rw e (omega (arith, steps, fits)) })
  | inr e ↦ inr (record { no_gap = e; within = omega tests; kept = rw e })
]
  where
    steps : (decide tb wall).steps * tb.step_us ≡ steps_for tb (wall - tb.sim_us) * tb.step_us
    steps = ap (λ (n : ℕ). n * tb.step_us) (decide-steps_for tb wall c)

    fits : steps_for tb (wall - tb.sim_us) * tb.step_us ≤ max (wall - tb.sim_us) tb.step_us
    fits = steps_for-le_deficit tb (wall - tb.sim_us)
