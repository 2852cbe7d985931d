-- ===== src/Reporter.antt =====
-- `TimebaseReporter::decide` of crates/simulation/src/loop_runner.rs: when a window's verdict is
-- logged. Instants and intervals are nanoseconds; `now` is an argument.
pub mod Throttle
pub mod Tests
use hitl_daemon.Base.{ℕ, ◌-◌, Bool, true, false, ◌&&◌, not, ltb, leb, if◌then◌else◌, List, [], ◌∷◌}
use hitl_daemon.Health.{Health, severity_rank, is_ok}

abbrev pub warn_interval : ℕ
warn_interval = 5000000000

abbrev pub heartbeat_interval : ℕ
heartbeat_interval = 60000000000

pub data Announcement : Type 0 where
  silent heartbeat degraded faulted : Announcement
  recovered : Health → Announcement

pub record TimebaseReporter : Type 0 where
  pub last_warning : ℕ
  pub last_heartbeat : ℕ
  pub reported : Health

unfoldable pub new : ℕ → TimebaseReporter
new now = record { last_warning = now; last_heartbeat = now; reported = Health.ok }

-- The line of a verdict that is not `ok`.
fault_line : Health → Announcement
fault_line Health.faulted = faulted
fault_line _ = degraded

unfoldable pub decide : TimebaseReporter → Health → ℕ → TimebaseReporter × Announcement
unfolding severity_rank is_ok fault_line
decide r health now =
    let escalated = ltb (severity_rank r.reported) (severity_rank health) in
    let throttled = not escalated && ltb (now - r.last_warning) warn_interval in
    if is_ok health
    then if not (is_ok r.reported)
      then if throttled then (r, silent) else (
        record { last_warning = now; last_heartbeat = now; reported = Health.ok },
        recovered r.reported,
      )
      else if leb heartbeat_interval (now - r.last_heartbeat)
      then (record r { last_heartbeat = now }, heartbeat)
      else (r, silent)
    else if throttled
    then (r, silent)
    else (record r { reported = health; last_warning = now }, fault_line health)

-- Whether a line reports a state of health, and not only that the reporter is alive.
unfoldable pub is_line : Announcement → Bool
is_line silent = false
is_line heartbeat = false
is_line _ = true

-- The observations of a session, each a verdict and its instant, in order.
unfoldable pub observe_all : TimebaseReporter → List (Health × ℕ) → TimebaseReporter
observe_all r [] = r
observe_all r ((health, now) ∷ rest) = observe_all (decide r health now).0 rest
