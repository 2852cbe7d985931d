-- ===== src/Board/Reset.antt =====
-- crates/websocket/src/vehicle_reset.rs: the vehicle reset. What is sent to the browser goes into the
-- history, whether or not the browser still listens.
use hitl_daemon.Base.{if◌then◌else◌, Option, none, some, List, ◌∷◌, Result, ok, err}
use hitl_daemon.Vehicle.{Physics, SimulationState, perform}
use hitl_daemon.Vehicle
use hitl_daemon.Board.Ready.{Px4HealthReport, not_applicable, NotReady, Ekf2Restart}
use hitl_daemon.Board.Session.{
  Effect, also, FcSession, Env, Refusal, Door, is_sim_only, begin_unless_armed, RestartError, Done,
  restart_ekf2, wait_until_ready,
}

pub data ResetStage : Type 0 where
  resetting_vehicle restarting_ekf waiting_for_px4 : ResetStage

pub data ResetState : Type 0 where
  resetting ready error : ResetState

pub data Reason : Type 0 where
  refusal : Refusal → Reason
  ekf2_restart_failed : RestartError → Reason
  px4_not_ready : NotReady → Reason

pub record ResetResult : Type 0 where
  pub state : ResetState
  pub stage : Option ResetStage
  error_text : Option Reason
  pub px4_health : Option Px4HealthReport

-- `ResetResult::resetting`, `ResetResult::ready` and `ResetResult::failed`.
abbrev is_resetting : ResetStage → ResetResult
is_resetting stage = record {
  state = resetting;
  stage = some stage;
  error_text = none;
  px4_health = none;
}

abbrev pub is_ready : Px4HealthReport → ResetResult
is_ready health = record {
  state = ready;
  stage = none;
  error_text = none;
  px4_health = some health;
}

abbrev pub has_failed : Reason → ResetResult
has_failed why = record { state = error; stage = none; error_text = some why; px4_health = none }

module _ (p : Physics) (e : Env ResetResult) where
  abbrev pub History : Type 0
  History = List (Effect ResetResult)

  -- The vehicle and the session after a reset; no result while it still waits for PX4.
  pub record Run : Type 0 where
    pub history : History
    pub session : FcSession
    pub vehicle : SimulationState p
    pub result : Option ResetResult

  abbrev pub report : ResetStage → History → History
  report stage h = also (is_resetting stage) ∷ h

  abbrev pub verdict : Option (Result NotReady Px4HealthReport) → Option ResetResult
  verdict none = none
  verdict (some (ok health)) = some (is_ready health)
  verdict (some (err why)) = some (has_failed (px4_not_ready why))

  abbrev pub after_restart : SimulationState p → Done e (Result RestartError Ekf2Restart) → Run
  after_restart s (h, session, err why) = record {
    history = h;
    session = session;
    vehicle = s;
    result = some (has_failed (ekf2_restart_failed why));
  }
  after_restart s (h, session, ok restart) =
      let waiting = report waiting_for_px4 h in
      record {
        history = waiting;
        session = session;
        vehicle = s;
        result = verdict (wait_until_ready e session restart waiting);
      }

  abbrev pub under_lock : FcSession → SimulationState p → History → Run
  under_lock session s h =
      let reset_done = perform p s Vehicle.reset in
      let told = report resetting_vehicle h in
      if is_sim_only session
      then record {
        history = told;
        session = session;
        vehicle = reset_done;
        result = some (is_ready not_applicable);
      }
      else after_restart reset_done (restart_ekf2 e session (report restarting_ekf told))

  abbrev pub if_admitted : Result Refusal (Unit {0}) → FcSession → SimulationState p → History → Run
  if_admitted (err why) session s h = record {
    history = h;
    session = session;
    vehicle = s;
    result = some (has_failed (refusal why));
  }
  if_admitted (ok u) session s h = under_lock session s h

  unfoldable pub reset_steps : FcSession → Door → SimulationState p → History → Run
  reset_steps session door s h = if_admitted (begin_unless_armed session door) session s h

  abbrev pub tell : Option ResetResult → History → History
  tell none h = h
  tell (some r) h = also r ∷ h

  -- `run_reset`: the result is sent as well.
  unfoldable pub run_reset : FcSession → Door → SimulationState p → History → Run
  run_reset session door s h =
      let r = reset_steps session door s h in record r { history = tell r.result r.history }
