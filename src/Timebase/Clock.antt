-- ===== src/Timebase/Clock.antt =====
-- What one call of `Timebase::plan` does to the clock.
use hitl_daemon.Base.{
  ℕ, ◌+◌, ◌-◌, ◌*◌, ◌≤◌, ◌<◌, ◌≡◌, ◌⊎◌, inl, inr, min, max, true, false, arith, u64_max,
}
use hitl_daemon.Timebase.{Timebase, apply, plan, integrated_time_us}
use hitl_daemon.Timebase.Decide.{
  decide_steps, absorbed-le_deficit, absorbed-le_threshold, decide-cases,
}
use hitl_daemon.Timebase.Inv.{Inv}

-- A call of a planner whose counters are in order makes neither the wall clock nor the integrated
-- clock smaller.
pub plan_monotone :
    (tb : Timebase) (wall : ℕ)
    → Inv tb
    → (tb.sim_us ≤ (plan tb wall).0.sim_us)
      × (integrated_time_us tb ≤ integrated_time_us (plan tb wall).0)
unfolding plan apply integrated_time_us
plan_monotone tb wall v = (omega (arith, v.sim_fits), omega (arith, v.sim_fits, v.discarded-le_sim))

-- After a call with a u64 wall reading the clock is behind the wall by at most the gap threshold,
-- and by nothing if the call marked a gap.
pub plan_lag :
    (tb : Timebase) (wall : ℕ)
    → Inv tb
    → wall ≤ u64_max
    → (wall - (plan tb wall).0.sim_us ≤ tb.gap_threshold_us)
      × (((plan tb wall).1.gap ≡ false) ⊎ (wall - (plan tb wall).0.sim_us ≡ 0))
unfolding plan apply
plan_lag tb wall v h = elim (decide-cases tb wall v.configured h) [
  | inl g ↦ (omega (arith, g.lost), inr (omega (arith, g.lost)))
  | inr s ↦ (omega (arith, s.within), inl s.no_gap)
]

-- After a call with a u64 wall reading the clock is at most the larger of the wall and one step
-- past where it was.
pub plan_lead :
    (tb : Timebase) (wall : ℕ)
    → Inv tb
    → wall ≤ u64_max
    → (plan tb wall).0.sim_us ≤ max wall (tb.sim_us + tb.step_us)
unfolding plan apply
plan_lead tb wall v h =
    let b = absorbed-le_deficit tb wall v.configured in
    elim (decide-cases tb wall v.configured h) [
      | inl g ↦ omega (arith, g.lost, b)
      | inr s ↦ omega (arith, s.kept, b)
    ]

-- A call of the planner replays at least one step, at most the allowance, and no more time than
-- the gap threshold or one step.
pub plan_replay :
    (tb : Timebase) (wall : ℕ)
    → Inv tb
    → (1 ≤ (plan tb wall).1.steps)
      × ((plan tb wall).1.steps ≤ tb.max_catchup_steps)
      × ((plan tb wall).1.steps * tb.step_us ≤ max tb.gap_threshold_us tb.step_us)
unfolding plan
plan_replay tb wall v =
    let b = decide_steps tb wall v.configured in
    (b.0, b.1, absorbed-le_threshold tb wall v.configured)

-- A call of the planner with a u64 wall reading past the clock by more than the gap threshold
-- marks a gap, invalidates the session and discards exactly the unreplayed rest; any other call
-- with a u64 reading leaves the discarded total and the validity alone and moves the clock by the
-- replayed steps.
pub plan_discard :
    (tb : Timebase) (wall : ℕ)
    → Inv tb
    → wall ≤ u64_max
    → (((plan tb wall).1.gap ≡ true)
        × ((plan tb wall).0.session_invalid ≡ true)
        × (tb.gap_threshold_us < wall - tb.sim_us)
        × ((plan tb wall).1.discarded_us ≡ wall - tb.sim_us - (plan tb wall).1.steps * tb.step_us))
      ⊎ (((plan tb wall).1.gap ≡ false)
          × ((plan tb wall).0.session_invalid ≡ tb.session_invalid)
          × ((plan tb wall).0.discarded_us ≡ tb.discarded_us)
          × ((plan tb wall).0.sim_us
              ≡ min (tb.sim_us + (plan tb wall).1.steps * tb.step_us) u64_max))
unfolding plan apply
plan_discard tb wall v h = elim (decide-cases tb wall v.configured h) [
  | inl g ↦ inl (g.gap, rw g.gap, g.over, g.lost)
  | inr s ↦ inr (
    s.no_gap,
    rw s.no_gap,
    omega (arith, s.kept, v.sim_fits, v.discarded-le_sim),
    omega (arith, s.kept),
  )
]
