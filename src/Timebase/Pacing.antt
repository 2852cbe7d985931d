-- ===== src/Timebase/Pacing.antt =====
-- The planner over a whole session: a list of wall times, one for each iteration of the loop.
use hitl_daemon.Base.{
  ℕ, ◌+◌, ◌-◌, ◌*◌, ◌/◌, ◌≤◌, ◌<◌, ◌≡◌, inl, inr, refl, ap, ◌∙◌, max, true, List, [], ◌∷◌, arith,
  u64_max,
}
use hitl_daemon.Base.Division.{quotient-le, quotient_mono, quotient_rest}
use hitl_daemon.Timebase.{Timebase, apply, plan, run, steps_for, identity_holds, integrated_time_us}
use hitl_daemon.Timebase.Decide.{IsConfigured, decide-steps_for, decide-cases}
use hitl_daemon.Timebase.Inv.{Inv, plan-Inv, Inv-identity_holds}
use hitl_daemon.Timebase.Clock.{plan_monotone}

-- The wall times are `u64` values.
abbrev pub Fits : List ℕ → Type 0
Fits [] = Unit {0}
Fits (wall ∷ walls) = (wall ≤ u64_max) × Fits walls

run-Inv : (walls : List ℕ) (tb : Timebase) → Fits walls → Inv tb → Inv (run tb walls)
unfolding run
run-Inv [] tb f v = v
run-Inv (wall ∷ walls) tb f v = run-Inv walls (plan tb wall).0 f.1 (plan-Inv tb wall f.0 v)

-- From a planner whose counters are in order and over any u64 wall times, the counters still
-- satisfy the identity at the end, and neither the wall clock nor the integrated clock has run
-- backwards.
pub run_sound :
    (walls : List ℕ) (tb : Timebase)
    → Fits walls
    → Inv tb
    → (identity_holds (run tb walls) ≡ true)
      × (tb.sim_us ≤ (run tb walls).sim_us)
      × (integrated_time_us tb ≤ integrated_time_us (run tb walls))
unfolding run
run_sound [] tb f v = (Inv-identity_holds tb v, omega arith, omega arith)
run_sound (wall ∷ walls) tb f v =
    let ih = run_sound walls (plan tb wall).0 f.1 (plan-Inv tb wall f.0 v) in
    let m = plan_monotone tb wall v in (ih.0, omega arith, omega arith)

-- Each wake comes at most `period` after the one before.
abbrev pub Paced : ℕ → ℕ → List ℕ → Type 0
Paced period last [] = Unit {0}
Paced period last (wall ∷ walls) = (wall ≤ last + period) × Paced period wall walls

abbrev pub last_wall : ℕ → List ℕ → ℕ
last_wall last [] = last
last_wall last (wall ∷ walls) = last_wall wall walls

-- A deficit that the allowance and the threshold cover is paid, up to less than one step.
steps_for_pays :
    (tb : Timebase) (d : ℕ)
    → IsConfigured tb
    → d ≤ tb.gap_threshold_us
    → d < tb.max_catchup_steps * tb.step_us
    → d < steps_for tb d * tb.step_us + tb.step_us
unfolding steps_for
steps_for_pays tb d c g m =
    let e : max tb.step_us 1 ≡ tb.step_us = omega arith in
    let q = ap (λ (s : ℕ). tb.gap_threshold_us / s) e in
    let a = quotient-le d tb.step_us tb.max_catchup_steps m in
    let b = quotient_mono d tb.step_us tb.gap_threshold_us c.step_pos g in
    quotient_rest d tb.step_us (steps_for tb d) c.step_pos (omega (arith, q, a, b))

-- One wake within the budget: nothing is lost, and the clock is less than a step behind.
plan_pays :
    (tb : Timebase) (wall : ℕ)
    → Inv tb
    → wall ≤ u64_max
    → wall - tb.sim_us ≤ tb.gap_threshold_us
    → wall - tb.sim_us < tb.max_catchup_steps * tb.step_us
    → (wall < (plan tb wall).0.sim_us + tb.step_us)
      × ((plan tb wall).0.discarded_us ≡ tb.discarded_us)
      × ((plan tb wall).0.session_invalid ≡ tb.session_invalid)
unfolding plan apply
plan_pays tb wall v h g m =
    let n = ap (λ (k : ℕ). k * tb.step_us) (decide-steps_for tb wall v.configured) in
    let p = steps_for_pays tb (wall - tb.sim_us) v.configured g m in
    elim (decide-cases tb wall v.configured h) [
      | inl gap ↦ absurd (omega (arith, gap.over))
      | inr s ↦ (
        omega (arith, n, p, v.configured.step_pos),
        omega (arith, s.kept, v.sim_fits, v.discarded-le_sim),
        rw s.no_gap,
      )
    ]

-- From a planner whose counters are in order and less than a step behind its last u64 wall
-- reading: if the wakes are at most a period apart, and that period plus one step fits the gap
-- threshold and the catch-up allowance, the session discards no time, is not invalidated, and ends
-- less than a step behind the last wall reading.
pub run-Paced :
    (walls : List ℕ) (period last : ℕ) (tb : Timebase)
    → Inv tb
    → Fits walls
    → period + tb.step_us ≤ tb.gap_threshold_us
    → period + tb.step_us ≤ tb.max_catchup_steps * tb.step_us
    → last < tb.sim_us + tb.step_us
    → Paced period last walls
    → ((run tb walls).discarded_us ≡ tb.discarded_us)
      × ((run tb walls).session_invalid ≡ tb.session_invalid)
      × (last_wall last walls < (run tb walls).sim_us + tb.step_us)
unfolding run plan apply
run-Paced [] period last tb v f g m l p = (refl, refl, l)
run-Paced (wall ∷ walls) period last tb v f g m l p =
    let one = plan_pays tb wall v f.0 (omega arith) (omega arith) in
    let ih =
      run-Paced walls period wall (plan tb wall).0 (plan-Inv tb wall f.0 v) f.1 g m one.0 p.1 in
    (ih.0 ∙ one.1, ih.1 ∙ one.2, ih.2)
