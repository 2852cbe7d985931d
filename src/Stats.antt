-- ===== src/Stats.antt =====
-- `SimulationStats` of crates/protocol/src/lib.rs, its counters and the whole numbers of its
-- timebase group, and what the simulation loop carries over a reconfiguration.
use hitl_daemon.Base.{ℕ, Bool, false}
use hitl_daemon.Health.{TimebaseHealth}

pub record SimulationStats : Type 0 where
  pub hil_sensor_count : ℕ
  pub hil_gps_count : ℕ
  pub actuator_count : ℕ
  pub sensor_drops : ℕ
  pub build_configured : Bool
  pub timebase_discarded_ms : ℕ
  pub timebase_gap_count : ℕ
  pub timebase_max_gap_ms : ℕ
  pub catchup_steps : ℕ
  pub wake_late_avg_us : ℕ
  pub deadline_overrun_us : ℕ
  pub wake_late_max_us : ℕ
  pub wake_late_p99_us : ℕ
  pub session_invalid : Bool
  pub timebase_health : TimebaseHealth
  pub timebase_worst_health : TimebaseHealth
  pub timebase_step_us : ℕ

unfoldable pub default_stats : SimulationStats
default_stats = record {
  hil_sensor_count = 0;
  hil_gps_count = 0;
  actuator_count = 0;
  sensor_drops = 0;
  build_configured = false;
  timebase_discarded_ms = 0;
  timebase_gap_count = 0;
  timebase_max_gap_ms = 0;
  catchup_steps = 0;
  wake_late_avg_us = 0;
  deadline_overrun_us = 0;
  wake_late_max_us = 0;
  wake_late_p99_us = 0;
  session_invalid = false;
  timebase_health = TimebaseHealth.ok;
  timebase_worst_health = TimebaseHealth.ok;
  timebase_step_us = 0;
}

-- `stats_after_reconfigure` of crates/simulation/src/loop_runner.rs.
unfoldable pub stats_after_reconfigure : SimulationStats → SimulationStats
stats_after_reconfigure previous = record default_stats {
  timebase_discarded_ms = previous.timebase_discarded_ms;
  timebase_gap_count = previous.timebase_gap_count;
  timebase_max_gap_ms = previous.timebase_max_gap_ms;
  catchup_steps = previous.catchup_steps;
  wake_late_avg_us = previous.wake_late_avg_us;
  wake_late_max_us = previous.wake_late_max_us;
  wake_late_p99_us = previous.wake_late_p99_us;
  deadline_overrun_us = previous.deadline_overrun_us;
  timebase_step_us = previous.timebase_step_us;
  session_invalid = previous.session_invalid;
  timebase_health = previous.timebase_health;
  timebase_worst_health = previous.timebase_worst_health;
}
