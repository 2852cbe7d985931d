-- ===== src/Board/Tests.antt =====
-- A board that answers each command, PX4 that passes its checks later, and the theorems at them.
use hitl_daemon.Base.{
  ℕ, Bool, true, false, ◌≡◌, inl, inr, refl, none, some, List, [], ◌∷◌, ok, arith,
}
use hitl_daemon.Provision.{Delivery, delivered, sent}
use hitl_daemon.Protocol.Messages.{NshResponse}
use hitl_daemon.Handler.Shell.{ValidatedNshCommand, starts_with}
use hitl_daemon.Vehicle.{SimulationState}
use hitl_daemon.Vehicle
use hitl_daemon.Vehicle.Tests.{numbers}
use hitl_daemon.Board.Monitor.{Px4HealthMonitor}
use hitl_daemon.Board.Nsh.{
  internal_request_id_first, run_nsh, await_reply, judge_ekf2_stop, judge_ekf2_start, first_failing,
  contains, advance, request_of,
}
use hitl_daemon.Board.Ready.{
  healthy, Turn, turn, Ekf2Restart, Px4Timing, wait_turns, wait_for_px4_ready,
}
use hitl_daemon.Board.Session.{
  Effect, asked, FcSession, Env, Door, ask, restart_ekf2, wait_until_ready, begin_unless_armed,
  px4_reports_armed,
}
use hitl_daemon.Board.Reset.{ResetResult, is_ready, run_reset, reset_steps}
use hitl_daemon.Board.ResetLaws.{
  Outcome, Told, Grounded, Patient, restart_done, run_reset-Outcome, run_reset-result,
  run_reset-Grounded,
}

abbrev answer_to : ValidatedNshCommand → NshResponse
answer_to request = record {
  request_id = request.request_id;
  success = true;
  complete = true;
  output = [];
}

-- Another command's answer comes first.
abbrev replies_to : List (Effect ResetResult) → List (Delivery NshResponse)
replies_to (asked request outcome ∷ h) =
    delivered (record { request_id = 1; success = false; complete = true; output = [] })
    ∷ delivered (answer_to request)
    ∷ []
replies_to h = []

abbrev passing : Bool → ℕ → Px4HealthMonitor
passing can_arm at = record {
  health = some (record { can_arm = can_arm; received_at = at });
  preflight_fail = none;
  ekf2_started_at = none;
}

-- The verdict fails at 3 s and passes at 4 s; a last turn lies past the deadline.
abbrev seen : List Turn
seen =
    turn (passing true 2500) 2600
    ∷ turn (passing false 3500) 3600
    ∷ turn (passing true 4000) 4001
    ∷ turn (passing true 4000) 40000
    ∷ []

abbrev pub board : Env ResetResult
board = record {
  try_send = λ h request. sent;
  replies = replies_to;
  now = λ h. 2000;
  turns = λ h. seen;
  texts = record { lines = λ text. text ∷ []; trim = λ text. text; to_lowercase = λ text. text };
}

abbrev times : Px4Timing
times = record {
  nsh_reply = 3000;
  health_guard = 1000;
  ready_timeout = 30000;
  sys_status_absent = 3000;
}

abbrev plugged_in : FcSession
plugged_in = record { has_board = true; next_id = internal_request_id_first; timing = times }

abbrev at_rest_door : Door
at_rest_door = record { armed_before = false; lock_free = true; armed_inside = false }

abbrev vehicle : SimulationState numbers
vehicle = Vehicle.new numbers 12

abbrev restarted : Ekf2Restart
restarted = record { began_at = 2000; confirmed_at = 2000 }

ready : wait_for_px4_ready restarted times seen ≡ some (ok healthy)
unfolding wait_for_px4_ready wait_turns
ready = refl

run_reset-Outcome_example :
    Outcome numbers board plugged_in at_rest_door vehicle []
      (run_reset numbers board plugged_in at_rest_door vehicle [])
run_reset-Outcome_example = run_reset-Outcome numbers board plugged_in at_rest_door vehicle []

restarts : (restart_done numbers board plugged_in at_rest_door vehicle []).2 ≡ ok restarted
unfolding restart_ekf2 ask run_nsh await_reply judge_ekf2_stop judge_ekf2_start first_failing
    contains starts_with advance request_of
restarts = refl

patient :
    Patient numbers board plugged_in at_rest_door vehicle []
      (restart_done numbers board plugged_in at_rest_door vehicle []).2
unfolding restart_ekf2 ask run_nsh await_reply judge_ekf2_stop judge_ekf2_start first_failing
    contains starts_with advance request_of
patient = inr (inr (inr (inl (omega arith))))

run_reset-result_example :
    Told numbers board plugged_in at_rest_door vehicle []
      (run_reset numbers board plugged_in at_rest_door vehicle [])
run_reset-result_example = run_reset-result numbers board plugged_in at_rest_door vehicle [] patient

is_healthy :
    (run_reset numbers board plugged_in at_rest_door vehicle []).result ≡ some (is_ready healthy)
unfolding run_reset reset_steps begin_unless_armed px4_reports_armed wait_until_ready
    wait_for_px4_ready wait_turns restart_ekf2 ask run_nsh await_reply judge_ekf2_stop
    judge_ekf2_start first_failing contains starts_with advance request_of
is_healthy = refl

run_reset-Grounded_example : Grounded numbers board plugged_in at_rest_door vehicle [] healthy
run_reset-Grounded_example =
    run_reset-Grounded numbers board plugged_in at_rest_door vehicle [] healthy is_healthy
