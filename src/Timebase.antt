-- ===== src/Timebase.antt =====
-- crates/simulation/src/timebase.rs: the pacing planner. Wall time is an argument of each call.
pub mod Decide
pub mod Inv
pub mod Clock
pub mod Pacing
pub mod Tests
use hitl_daemon.Base.{
  ℕ, ◌+◌, ◌-◌, ◌*◌, ◌/◌, min, max, Bool, true, false, ◌==◌, ltb, if◌then◌else◌, Option, none, some,
  List, [], ◌∷◌, u32_max, u64_max, saturating_add, saturating_mul, saturating_add_u32,
}

pub record TickPlan : Type 0 where
  pub steps : ℕ  -- u32
  pub discarded_us : ℕ
  pub gap : Bool
  pub deficit_us : ℕ

pub record Timebase : Type 0 where
  pub step_us : ℕ
  pub gap_threshold_us : ℕ
  pub max_catchup_steps : ℕ  -- u32
  pub sim_us : ℕ
  pub discarded_us : ℕ
  pub steps_done : ℕ
  pub catchup_steps : ℕ
  pub gap_count : ℕ  -- u32
  pub max_gap_us : ℕ
  pub session_invalid : Bool

abbrev pub default_gap_threshold_us : ℕ
default_gap_threshold_us = 20000

abbrev pub default_max_catchup_steps : ℕ
default_max_catchup_steps = 8

-- Clamps a `u64` into a `u32` field.
abbrev pub saturate_u32 : ℕ → ℕ
saturate_u32 value = min value u32_max

unfoldable pub new : ℕ → ℕ → ℕ → Timebase
new step_us gap_threshold_us max_catchup_steps = record {
  step_us = max step_us 1;
  gap_threshold_us = gap_threshold_us;
  max_catchup_steps = max max_catchup_steps 1;
  sim_us = 0;
  discarded_us = 0;
  steps_done = 0;
  catchup_steps = 0;
  gap_count = 0;
  max_gap_us = 0;
  session_invalid = false;
}

unfoldable pub without_catchup : ℕ → Timebase
unfolding new
without_catchup step_us = new step_us u64_max 1

unfoldable pub integrated_time_us : Timebase → ℕ
integrated_time_us tb = tb.sim_us - tb.discarded_us

unfoldable pub deadline_us : Timebase → ℕ
deadline_us tb = tb.sim_us

unfoldable pub budget_steps_u64 : ℕ → ℕ → ℕ
budget_steps_u64 step_us gap_threshold_us = max (gap_threshold_us / max step_us 1) 1

unfoldable pub budget_steps : Timebase → ℕ
unfolding budget_steps_u64
budget_steps tb = budget_steps_u64 tb.step_us tb.gap_threshold_us

unfoldable pub budget_steps_at : ℕ → ℕ → ℕ
unfolding budget_steps_u64
budget_steps_at step_us gap_threshold_us = saturate_u32 (budget_steps_u64 step_us gap_threshold_us)

-- The sub-steps that `decide` takes against a deficit.
unfoldable pub steps_for : Timebase → ℕ → ℕ
unfolding budget_steps
steps_for tb deficit_us =
    let allowance = min tb.max_catchup_steps (budget_steps tb) in
    max (min (deficit_us / tb.step_us) allowance) 1

-- The pure decision, from the counters and the wall.
unfoldable pub decide : Timebase → ℕ → TickPlan
decide tb wall_elapsed_us =
    let deficit_us = wall_elapsed_us - tb.sim_us in
    let gap = ltb tb.gap_threshold_us deficit_us in
    let steps = steps_for tb deficit_us in
    let absorbed_us = saturating_mul steps tb.step_us in
    record {
      steps = saturate_u32 steps;
      discarded_us = if gap then deficit_us - absorbed_us else 0;
      gap = gap;
      deficit_us = deficit_us;
    }

-- Folds a decision into the counters.
unfoldable pub apply : Timebase → TickPlan → Timebase
apply tb plan =
    let advance = saturating_add (saturating_mul plan.steps tb.step_us) plan.discarded_us in
    let new_sim = saturating_add tb.sim_us advance in
    let moved = new_sim - tb.sim_us in
    let recorded_discard = min plan.discarded_us moved in
    record tb {
      sim_us = new_sim;
      discarded_us = saturating_add tb.discarded_us recorded_discard;
      steps_done = saturating_add tb.steps_done plan.steps;
      catchup_steps = saturating_add tb.catchup_steps (plan.steps - 1);
      gap_count = if plan.gap then saturating_add_u32 tb.gap_count 1 else tb.gap_count;
      max_gap_us = if plan.gap then max tb.max_gap_us plan.deficit_us else tb.max_gap_us;
      session_invalid = if plan.gap then true else tb.session_invalid;
    }

unfoldable pub plan : Timebase → ℕ → Timebase × TickPlan
plan tb wall_elapsed_us = let p = decide tb wall_elapsed_us in (apply tb p, p)

checked_mul : ℕ → ℕ → Option ℕ
checked_mul a b = if ltb u64_max (a * b) then none else some (a * b)

checked_add : ℕ → ℕ → Option ℕ
checked_add a b = if ltb u64_max (a + b) then none else some (a + b)

identity_of : Timebase → Option ℕ → Bool
identity_of tb none = true
identity_of tb (some expected) = expected == tb.sim_us

-- The condition that the `debug_assert!` of `apply` tests.
unfoldable pub identity_holds : Timebase → Bool
unfolding checked_mul checked_add identity_of
identity_holds tb = elim (checked_mul tb.steps_done tb.step_us) [
  | none ↦ true
  | some s ↦ identity_of tb (checked_add s tb.discarded_us)
]

-- The planner over the loop's life: one call for each wall time read.
unfoldable pub run : Timebase → List ℕ → Timebase
run tb [] = tb
run tb (wall ∷ walls) = run (plan tb wall).0 walls
