-- ===== src/Board/Ready.antt =====
-- crates/websocket/src/px4_ready.rs: the wait until PX4 says that it can arm. Times are
-- milliseconds of the monotonic clock.
use hitl_daemon.Base.{
  ℕ, Bool, false, not, ◌&&◌, ◌||◌, ◌+◌, leb, if◌then◌else◌, Option, none, some, List, [], ◌∷◌,
  Result, ok, err,
}
use hitl_daemon.Board.Monitor.{Px4Health, Px4HealthMonitor, preflight_fail_since}

pub record Px4Timing : Type 0 where
  pub nsh_reply : ℕ
  pub health_guard : ℕ
  pub ready_timeout : ℕ
  pub sys_status_absent : ℕ

unfoldable pub default : Px4Timing
default = record {
  nsh_reply = 3000;
  health_guard = 1000;
  ready_timeout = 30000;
  sys_status_absent = 3000;
}

pub data Px4HealthReport : Type 0 where
  healthy unknown not_applicable : Px4HealthReport

pub data NotReady : Type 0 where
  preflight_fail : List ℕ → NotReady
  no_report health_channel_closed : NotReady

-- What one turn of the loop sees: the monitor and the clock, or that the channel is closed.
pub data Turn : Type 0 where
  turn : Px4HealthMonitor → ℕ → Turn
  closed : Turn

pub record Ekf2Restart : Type 0 where
  pub began_at : ℕ
  pub confirmed_at : ℕ

abbrev pub hears : ℕ → Option Px4Health → Bool
hears confirmed_at none = false
hears confirmed_at (some h) = leb confirmed_at h.received_at

abbrev pub passes : ℕ → Option Px4Health → Bool
passes ready_after none = false
passes ready_after (some h) = h.can_arm && leb ready_after h.received_at

abbrev pub reason : Option (List ℕ) → NotReady
reason none = no_report
reason (some text) = preflight_fail text

module _ (restart : Ekf2Restart) (timing : Px4Timing) where
  abbrev pub ready_after : ℕ
  ready_after = restart.confirmed_at + timing.health_guard

  abbrev pub absent_by : ℕ
  absent_by = restart.confirmed_at + timing.sys_status_absent

  abbrev pub give_up_at : ℕ
  give_up_at = restart.confirmed_at + timing.ready_timeout

  -- The loop, where `heard` is what it knows from the turns before. `none` means that the turns
  -- ran out while it waited.
  unfoldable pub wait_turns : Bool → List Turn → Option (Result NotReady Px4HealthReport)
  wait_turns heard [] = none
  wait_turns heard (closed ∷ turns) = some (err health_channel_closed)
  wait_turns heard (turn m now ∷ turns) =
      let known = heard || hears restart.confirmed_at m.health in
      let rest = wait_turns known turns in
      if passes ready_after m.health
      then some (ok healthy)
      else if not known && leb absent_by now
      then some (ok unknown)
      else if leb give_up_at now
      then some (err (reason (preflight_fail_since restart.began_at m)))
      else rest

  unfoldable pub wait_for_px4_ready : List Turn → Option (Result NotReady Px4HealthReport)
  wait_for_px4_ready = wait_turns false
