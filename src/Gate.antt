-- ===== src/Gate.antt =====
-- The arming gate of crates/websocket/src/preflight.rs, and the pilot's overlay line of
-- src/timebase_cli.rs. The rates that the texts quote are left out.
use hitl_daemon.Base.{
  ℕ, Bool, true, false, ◌&&◌, ◌||◌, not, ltb, ◌==◌, if◌then◌else◌, Option, none, some,
}
use hitl_daemon.Health.{TimebaseHealth, is_faulted}
use hitl_daemon.Stats.{SimulationStats}

abbrev pub landed_on_ground : ℕ
landed_on_ground = 1

abbrev pub landed_in_air : ℕ
landed_in_air = 2

abbrev pub landed_takeoff : ℕ
landed_takeoff = 3

abbrev pub landed_landing : ℕ
landed_landing = 4

-- The arms of the source's `match` in their order; the last is the catch-all.
unfoldable pub flight_in_progress : Bool → ℕ → Bool
flight_in_progress false landed_state = false
flight_in_progress true landed_state =
    if landed_state == landed_in_air
      || landed_state == landed_takeoff
      || landed_state == landed_landing
    then true
    else if landed_state == landed_on_ground
    then false
    else true

-- What the refusal text names of the gaps: their number, the largest and the time lost, in ms.
pub record Refusal : Type 0 where
  pub gaps : Option (ℕ × ℕ × ℕ)

refusal : SimulationStats → Refusal
refusal stats = record {
  gaps =
      if stats.session_invalid || ltb 0 stats.timebase_gap_count
      then some (stats.timebase_gap_count, stats.timebase_max_gap_ms, stats.timebase_discarded_ms)
      else none;
}

-- `none` is `Ok(())`.
unfoldable pub timebase_arming_gate : SimulationStats → Bool → Option Refusal
unfolding refusal is_faulted
timebase_arming_gate stats in_flight =
    let lost_time = stats.session_invalid || ltb 0 stats.timebase_discarded_ms in
    let faulted = is_faulted stats.timebase_worst_health in
    if in_flight then none else if not lost_time && not faulted then none else some (refusal stats)

unfoldable pub session_is_compromised : SimulationStats → Bool
unfolding is_faulted
session_is_compromised stats =
    stats.session_invalid
    || ltb 0 stats.timebase_discarded_ms
    || is_faulted stats.timebase_worst_health

abbrev pub severity_critical : ℕ
severity_critical = 2

abbrev pub severity_warning : ℕ
severity_warning = 4

abbrev pub severity_info : ℕ
severity_info = 6

-- The texts of the overlay, with the figures that are whole numbers.
pub data Line : Type 0 where
  faulted_line degraded_line : Line
  cadence_recovered : TimebaseHealth → ℕ → Line
  recovered : TimebaseHealth → Line

annunciate : TimebaseHealth → Bool → SimulationStats → TimebaseHealth → ℕ × Line
annunciate TimebaseHealth.faulted compromised stats previous = (severity_critical, faulted_line)
annunciate TimebaseHealth.degraded compromised stats previous = (severity_warning, degraded_line)
annunciate TimebaseHealth.ok true stats previous =
    (severity_warning, cadence_recovered previous stats.timebase_discarded_ms)
annunciate TimebaseHealth.ok false stats previous = (severity_info, recovered previous)

unfoldable pub annunciation : SimulationStats → TimebaseHealth → ℕ × Line
unfolding annunciate
annunciation stats previous =
    annunciate stats.timebase_health (session_is_compromised stats) stats previous

unfoldable pub refuses : Option Refusal → Bool
refuses none = false
refuses (some r) = true
