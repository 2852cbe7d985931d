-- ===== src/Build/Handler.antt =====
-- crates/websocket/src/build_config.rs: a ConfigureBuild request, from the session's door to PX4's
-- answer. What the catalogue and the physics library make of a request is given; so is what the board,
-- the simulation loop and the clock answer.
use hitl_daemon.Base.{
  ℕ, Bool, true, false, not, ◌==◌, if◌then◌else◌, Option, none, some, List, [], ◌∷◌, Result, ok,
  err,
}
use hitl_daemon.Provision
use hitl_daemon.Terrain.Geo.{Real}
use hitl_daemon.Board.Ready.{Px4HealthReport, not_applicable, NotReady, Ekf2Restart}
use hitl_daemon.Board.Session.{
  Effect, also, FcSession, Env, Refusal, Door, is_sim_only, px4_reports_armed, begin_unless_armed,
  RestartError, Done, restart_ekf2, wait_until_ready,
}
use hitl_daemon.Build.Push.{
  Px4PidsView, Library, PushError, LastVerifiedParams, PushState, Pushed, push_pids_and_verify,
  invalidate_pid_fingerprint,
}
use hitl_daemon.Build.Location.{
  BadLocation, FlightLocation, resolve_flight_location, Anchor, anchor_origin,
}

pub data ConfigStage : Type 0 where
  fetching_specs computing pushing_params restarting_ekf waiting_for_px4 : ConfigStage

pub data ApplyError : Type 0 where
  refused : Refusal → ApplyError
  bad_location : BadLocation → ApplyError
  not_fetched armed_meanwhile simulation_unavailable not_applied : ApplyError
  not_pushed : PushError → ApplyError
  ekf2_restart_failed : RestartError → ApplyError
  px4_not_ready : NotReady → ApplyError

module _ (l : Provision.Env) (lib : Library l.F32) (r : Real) (is_finite : r.F → Bool)
    (neg : r.F → r.F) (C Q : Type 0) where
  -- The physics, battery and sensors of a build, and what its parameters are made of.
  pub record Computed : Type 0 where
    pub config : C
    pub params : LastVerifiedParams l lib

  pub record ConfigureBuild : Type 0 where
    pub flight_location : Option (FlightLocation r.F)
    pub origin_elevation_msl : Option r.F
    pub parts : Q

  -- The handler, with what it has done: `flow` and `link` newest first, `configs` as handed over.
  pub record State : Type 0 where
    pub flow : List (Effect ConfigStage)
    pub link : List (Provision.Effect l.F32)
    pub push : PushState l lib
    pub fc_session : Option FcSession
    pub anchor : Anchor r.F
    pub configs : List C

  -- What one request meets. `generations` are the readings until the wait times out.
  pub record World : Type 0 where
    pub board : Env ConfigStage
    pub door : Door
    pub computed : Q → Option Computed
    pub armed_after_push : Bool
    pub simulation_listens : Bool
    pub generation_before : ℕ
    pub generations : List ℕ

  pub record Applied : Type 0 where
    pub config : C
    applied_pids : Option (Px4PidsView l.F32)
    verified_params : ℕ
    pub px4_health : Px4HealthReport

  -- The state after a request and its answer; no answer while it still waits for PX4.
  abbrev pub Out : Type 0
  Out = State × Option (Result ApplyError Applied)

  abbrev report_stage : ConfigStage → State → State
  report_stage stage s = record s { flow = also stage ∷ s.flow }

  unfoldable pub wait_for_config_applied : ℕ → List ℕ → Bool
  wait_for_config_applied before [] = false
  wait_for_config_applied before (generation ∷ rest) =
      let later = wait_for_config_applied before rest in
      if generation == before then later else true

  abbrev pub session_reports_armed : Option FcSession → Bool → Bool
  session_reports_armed none is_armed = false
  session_reports_armed (some session) is_armed = px4_reports_armed session is_armed

  module _ (w : World) where
    abbrev pub verdict :
        (Px4HealthReport → Applied)
        → Option (Result NotReady Px4HealthReport)
        → Option (Result ApplyError Applied)
    verdict applied none = none
    verdict applied (some (ok health)) = some (ok (applied health))
    verdict applied (some (err why)) = some (err (px4_not_ready why))

    abbrev pub after_restart :
        (Px4HealthReport → Applied) → State → Done w.board (Result RestartError Ekf2Restart) → Out
    after_restart applied s (h, session, err why) =
        (record s { flow = h; fc_session = some session }, some (err (ekf2_restart_failed why)))
    after_restart applied s (h, session, ok restart) =
        let waiting = also waiting_for_px4 ∷ h in
        (
          record s { flow = waiting; fc_session = some session },
          verdict applied (wait_until_ready w.board session restart waiting),
        )

    -- With `none` or a session without a board there is nothing to restart.
    abbrev pub restart_if : Option FcSession → (Px4HealthReport → Applied) → State → Out
    restart_if none applied s = (s, some (ok (applied not_applicable)))
    restart_if (some session) applied s =
        if is_sim_only session
        then (s, some (ok (applied not_applicable)))
        else after_restart applied s (restart_ekf2 w.board session (also restarting_ekf ∷ s.flow))

    unfoldable pub restart_ekf2_and_wait_for_px4 : (Px4HealthReport → Applied) → State → Out
    restart_ekf2_and_wait_for_px4 applied s = restart_if s.fc_session applied s

    -- Only a handler with a simulation state waits for it.
    abbrev pub is_applied : Option FcSession → Bool
    is_applied none = true
    is_applied (some session) = wait_for_config_applied w.generation_before w.generations

    abbrev pub hand_over : C → (Px4HealthReport → Applied) → State → Out
    hand_over config applied s =
        if not w.simulation_listens
        then (s, some (err simulation_unavailable))
        else if not (is_applied s.fc_session)
        then (record s { configs = config ∷ s.configs }, some (err not_applied))
        else restart_ekf2_and_wait_for_px4 applied (record s { configs = config ∷ s.configs })

    abbrev pub applied_with : Computed → Option (Px4PidsView l.F32) → ℕ → Px4HealthReport → Applied
    applied_with computed view verified health = record {
      config = computed.config;
      applied_pids = view;
      verified_params = verified;
      px4_health = health;
    }

    abbrev pub after_push :
        ConfigureBuild → FlightLocation r.F → Computed → State → Pushed l lib → Out
    after_push request location computed s (link, push, err why) =
        (record s { link = link; push = push }, some (err (not_pushed why)))
    after_push request location computed s (link, push, ok (view, verified)) =
        let pushed = record s { link = link; push = push } in
        if session_reports_armed s.fc_session w.armed_after_push
        then (pushed, some (err armed_meanwhile))
        else hand_over computed.config (applied_with computed view verified) (record pushed {
          anchor = anchor_origin r location.lat location.lon request.origin_elevation_msl s.anchor;
        })

    abbrev pub after_computing : ConfigureBuild → FlightLocation r.F → Option Computed → State → Out
    after_computing request location none s = (s, some (err not_fetched))
    after_computing request location (some computed) s =
        let told = report_stage pushing_params (report_stage ConfigStage.computing s) in
        after_push request location computed told
          (push_pids_and_verify l lib computed.params s.push s.link)

    abbrev pub after_location :
        ConfigureBuild → Result BadLocation (FlightLocation r.F) → State → Out
    after_location request (err why) s = (s, some (err (bad_location why)))
    after_location request (ok location) s =
        after_computing request location (w.computed request.parts) s

    unfoldable pub apply : ConfigureBuild → State → Out
    apply request s =
        after_location request (resolve_flight_location r is_finite neg request.flight_location)
          (report_stage fetching_specs s)

    abbrev pub begin_session : Option FcSession → Result Refusal (Unit {0})
    begin_session none = ok tt
    begin_session (some session) = begin_unless_armed session w.door

    -- Every failure forgets the fingerprint.
    abbrev pub finish : Out → Out
    finish (s, some (err why)) =
        (record s { push = invalidate_pid_fingerprint l lib s.push }, some (err why))
    finish (s, o) = (s, o)

    abbrev pub if_admitted : Result Refusal (Unit {0}) → ConfigureBuild → State → Out
    if_admitted (err why) request s = (s, some (err (refused why)))
    if_admitted (ok u) request s = finish (apply request s)

    unfoldable pub handle : ConfigureBuild → State → Out
    handle request s = if_admitted (begin_session s.fc_session) request s
