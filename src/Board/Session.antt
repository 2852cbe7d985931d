-- ===== src/Board/Session.antt =====
-- crates/websocket/src/fc_session.rs: the session lock's refusals and the EKF2 restart. A flow extends
-- the history of what it did, newest first; `A` is what it does besides. What the shell, the clock and
-- the health monitor answer is any function of that history.
use hitl_daemon.Base.{
  ℕ, Bool, not, ◌&&◌, if◌then◌else◌, Option, List, [], ◌∷◌, Result, ok, err, ◌>>=◌,
}
use hitl_daemon.Provision.{Delivery, Sent}
use hitl_daemon.Protocol.Messages.{NshResponse}
use hitl_daemon.Handler.Shell.{ValidatedNshCommand}
use hitl_daemon.Board.Nsh.{
  Texts, NshError, advance, request_of, run_nsh, judge_ekf2_stop, judge_ekf2_start,
}
use hitl_daemon.Board.Ready.{
  Px4Timing, Px4HealthReport, NotReady, Turn, Ekf2Restart, wait_for_px4_ready,
}

pub data Effect (A : Type 0) : Type 0 where
  asked : ValidatedNshCommand → Sent → Effect A
  marked_started : ℕ → Effect A
  also : A → Effect A

-- `has_board` is `nsh.is_some()`; `next_id` is the next request id.
pub record FcSession : Type 0 where
  pub has_board : Bool
  pub next_id : ℕ
  pub timing : Px4Timing

pub record Env (A : Type 0) : Type 0 where
  pub try_send : List (Effect A) → ValidatedNshCommand → Sent
  pub replies : List (Effect A) → List (Delivery NshResponse)
  pub now : List (Effect A) → ℕ
  pub turns : List (Effect A) → List Turn
  pub texts : Texts

pub data Refusal : Type 0 where
  armed_refusal busy_refusal : Refusal

abbrev pub is_sim_only : FcSession → Bool
is_sim_only session = not session.has_board

unfoldable pub px4_reports_armed : FcSession → Bool → Bool
px4_reports_armed session is_armed = not (is_sim_only session) && is_armed

-- `is_armed` at the door, whether the lock is free, and `is_armed` under the lock.
pub record Door : Type 0 where
  pub armed_before : Bool
  pub lock_free : Bool
  pub armed_inside : Bool

unfoldable pub begin_unless_armed : FcSession → Door → Result Refusal (Unit {0})
begin_unless_armed session door =
    if px4_reports_armed session door.armed_before
    then err armed_refusal
    else if not door.lock_free
    then err busy_refusal
    else if px4_reports_armed session door.armed_inside
    then err armed_refusal
    else ok tt

pub data RestartError : Type 0 where
  no_flight_controller : RestartError
  ekf2_stop ekf2_start : NshError → RestartError

-- "ekf2 stop" and "ekf2 start".
abbrev pub ekf2_stop_text : List ℕ
ekf2_stop_text = 101 ∷ 107 ∷ 102 ∷ 50 ∷ 32 ∷ 115 ∷ 116 ∷ 111 ∷ 112 ∷ []

abbrev pub ekf2_start_text : List ℕ
ekf2_start_text = 101 ∷ 107 ∷ 102 ∷ 50 ∷ 32 ∷ 115 ∷ 116 ∷ 97 ∷ 114 ∷ 116 ∷ []

module _ {A : Type 0} (e : Env A) where
  -- A flow, the session it leaves and its result.
  abbrev pub Done : Type 0 → Type 0
  Done R = List (Effect A) × FcSession × R

  -- One shell command under a fresh id, with its reply judged.
  unfoldable pub ask :
      List ℕ
      → (List ℕ → Result NshError (Unit {0}))
      → FcSession
      → List (Effect A)
      → Done (Result NshError (Unit {0}))
  ask command judge session h =
      let request = request_of session.next_id command in
      let outcome = e.try_send h request in
      let after : List (Effect A) = asked request outcome ∷ h in
      (
        after,
        record session { next_id = advance session.next_id },
        run_nsh e.texts session.next_id outcome (e.replies after) >>= judge,
      )

  -- After a confirmed start.
  abbrev confirm : ℕ → FcSession → List (Effect A) → Done (Result RestartError Ekf2Restart)
  confirm began_at session h = (
    marked_started (e.now h) ∷ h,
    session,
    ok (record { began_at = began_at; confirmed_at = e.now h }),
  )

  abbrev pub after_start :
      ℕ → Done (Result NshError (Unit {0})) → Done (Result RestartError Ekf2Restart)
  after_start began_at (h, session, err why) = (h, session, err (ekf2_start why))
  after_start began_at (h, session, ok u) = confirm began_at session h

  abbrev pub after_stop :
      ℕ → Done (Result NshError (Unit {0})) → Done (Result RestartError Ekf2Restart)
  after_stop began_at (h, session, err why) = (h, session, err (ekf2_stop why))
  after_stop began_at (h, session, ok u) =
      after_start began_at (ask ekf2_start_text (judge_ekf2_start e.texts) session h)

  unfoldable pub restart_ekf2 : FcSession → List (Effect A) → Done (Result RestartError Ekf2Restart)
  restart_ekf2 session h =
      if is_sim_only session
      then (h, session, err no_flight_controller)
      else after_stop (e.now h) (ask ekf2_stop_text judge_ekf2_stop session h)

  unfoldable pub wait_until_ready :
      FcSession → Ekf2Restart → List (Effect A) → Option (Result NotReady Px4HealthReport)
  wait_until_ready session restart h = wait_for_px4_ready restart session.timing (e.turns h)
