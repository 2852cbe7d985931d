-- ===== src/Cadence.antt =====
-- The rates of the loop: the tick rates that src/timebase_cli.rs accepts, the planner that
-- crates/simulation/src/loop_runner.rs makes of one, its sub-step stamps and its 50 Hz slots.
pub mod Rates
pub mod Slots
pub mod Tests
use hitl_daemon.Base.{
  ℕ, suc, ◌+◌, ◌-◌, ◌*◌, ◌/◌, ◌%◌, max, Bool, true, false, ◌||◌, not, ltb, ◌==◌, if◌then◌else◌,
  Result, ok, err, saturating_add, saturating_mul,
}
use hitl_daemon.Timebase.{Timebase, new, budget_steps_at, default_gap_threshold_us}

abbrev pub nanos_per_sec : ℕ
nanos_per_sec = 1000000000

abbrev pub micros_per_sec : ℕ
micros_per_sec = 1000000

abbrev pub max_tick_rate_hz : ℕ
max_tick_rate_hz = 1000

-- The refusals, with the figures that their texts quote.
pub data RateError : Type 0 where
  zero_rate : RateError
  above_ceiling : ℕ → ℕ → RateError
  uneven : ℕ → ℕ → RateError

unfoldable pub validate_tick_rate : ℕ → Result RateError ℕ
validate_tick_rate hz =
    let step_us = micros_per_sec / hz in
    let wall_period_ns = nanos_per_sec / hz in
    let sim_advance_ns = (micros_per_sec / hz) * 1000 in
    if hz == 0
    then err zero_rate
    else if ltb max_tick_rate_hz hz
    then err (above_ceiling step_us (default_gap_threshold_us / max step_us 1))
    else if not (nanos_per_sec % hz == 0) || not (micros_per_sec % hz == 0)
    then err (uneven wall_period_ns sim_advance_ns)
    else ok hz

abbrev pub sim_only_auto_recharge_secs : ℕ
sim_only_auto_recharge_secs = 3

pub record SimOnlyCadence : Type 0 where
  pub step_us : ℕ
  pub auto_recharge_ticks : ℕ

unfoldable pub sim_only_cadence : ℕ → SimOnlyCadence
sim_only_cadence tick_rate_hz =
    let hz = max tick_rate_hz 1 in
    record { step_us = micros_per_sec / hz; auto_recharge_ticks = sim_only_auto_recharge_secs * hz }

-- The step and the planner at the start of `SimulationLoop::run`.
unfoldable pub loop_step_us : ℕ → ℕ
loop_step_us tick_rate_hz = micros_per_sec / max tick_rate_hz 1

unfoldable pub loop_timebase : ℕ → Timebase
unfolding loop_step_us
loop_timebase tick_rate_hz =
    let step_us = loop_step_us tick_rate_hz in
    new step_us default_gap_threshold_us (budget_steps_at step_us default_gap_threshold_us)

-- The time stamp of sub-step `step`, of `steps`, in an iteration that ends at `sim_after_us`.
unfoldable pub substep_end_us : ℕ → ℕ → ℕ → ℕ → ℕ
substep_end_us sim_after_us steps step_us step = sim_after_us - (steps - step) * step_us

-- `next_slot_us`: the start of the next slot of a fixed grid.
unfoldable pub next_slot_us : ℕ → ℕ → ℕ
next_slot_us now_us period_us =
    let period = max period_us 1 in saturating_mul (saturating_add (now_us / period) 1) period
