-- ===== src/Session.antt =====
-- One session of the simulation loop (crates/simulation/src/loop_runner.rs), as far as its health
-- is concerned: the planner, the published statistics and the worst verdict of any window.
pub mod Latch
pub mod Tests
use hitl_daemon.Base.{ℕ, ◌/◌, Bool, true, false, ltb, if◌then◌else◌, List, [], ◌∷◌, u32_max}
use hitl_daemon.Health.{Health, from_health, severity_rank}
use hitl_daemon.Stats.{SimulationStats, default_stats, stats_after_reconfigure}
use hitl_daemon.Timebase.{
  Timebase, plan, new, budget_steps_at, saturate_u32, default_gap_threshold_us,
}

pub record Session : Type 0 where
  pub tb : Timebase
  pub stats : SimulationStats
  pub worst_health : Health

-- The parts of a window's verdict that are published: its health and its wake figures.
pub record Verdict : Type 0 where
  pub health : Health
  pub wake_late_avg_us : ℕ
  pub deadline_overrun_us : ℕ
  pub wake_late_max_us : ℕ
  pub wake_late_p99_us : ℕ

worse : Health → Health → Health
unfolding severity_rank
worse verdict worst = if ltb (severity_rank worst) (severity_rank verdict) then verdict else worst

-- `roll_up_timebase_window`, from the verdict on.
unfoldable pub roll_up : Session → Verdict → Session
unfolding worse
roll_up s v =
    let worst = worse v.health s.worst_health in
    record s {
      worst_health = worst;
      stats = record (s.stats) {
        timebase_discarded_ms = saturate_u32 (s.tb.discarded_us / 1000);
        timebase_gap_count = s.tb.gap_count;
        timebase_max_gap_ms = saturate_u32 (s.tb.max_gap_us / 1000);
        catchup_steps = s.tb.catchup_steps;
        session_invalid = s.tb.session_invalid;
        wake_late_avg_us = v.wake_late_avg_us;
        deadline_overrun_us = v.deadline_overrun_us;
        wake_late_max_us = saturate_u32 v.wake_late_max_us;
        wake_late_p99_us = saturate_u32 v.wake_late_p99_us;
        timebase_step_us = saturate_u32 s.tb.step_us;
        timebase_health = from_health v.health;
        timebase_worst_health = from_health worst;
      };
    }

-- What happens to a session: an iteration reads the wall, a window closes, a build is applied.
pub data Event : Type 0 where
  iteration : ℕ → Event
  window : Verdict → Event
  reconfigure : Event

unfoldable pub step : Session → Event → Session
unfolding roll_up
step s (iteration wall) = record s { tb = (plan s.tb wall).0 }
step s (window v) = roll_up s v
step s reconfigure = record s {
  stats = record (stats_after_reconfigure s.stats) { build_configured = true };
}

unfoldable pub run : Session → List Event → Session
run s [] = s
run s (e ∷ es) = run (step s e) es

-- The session at the start of `SimulationLoop::run`.
unfoldable pub start : ℕ → Session
start step_us = record {
  tb = new step_us default_gap_threshold_us (budget_steps_at step_us default_gap_threshold_us);
  stats = default_stats;
  worst_health = Health.ok;
}
