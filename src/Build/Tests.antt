-- ===== src/Build/Tests.antt =====
-- A build on a board that takes every parameter, a simulation that is gone, and the theorems at them.
use Prim.Native.String.{String}
use hitl_daemon.Build.Catalogue.{Figures, Pack, assemble}
use hitl_daemon.Build.CatalogueLaws.{Disclosed, assemble-Disclosed}
use hitl_daemon.Base.{ℕ, ◌≡◌, refl, Bool, true, false, none, some, [], ◌∷◌, err, Option}
use hitl_daemon.Provision.{acked, wait_for_param_ack}
use hitl_daemon.Provision.Tests.{bench}
use hitl_daemon.Terrain.Cache.{with_capacity}
use hitl_daemon.Terrain.Tests.{plain}
use hitl_daemon.Board.Session.{Env}
use hitl_daemon.Provision
use hitl_daemon.Build.Push.{
  Px4PidsView, Library, LastVerifiedParams, PushState, push_fingerprint, params_of, push_param,
  push_params, push_pids_and_verify, xor_bits, invalidate_pid_fingerprint,
}
use hitl_daemon.Build.PushLaws.{Outcome, is_skipped, push_pids_and_verify-Outcome}
use hitl_daemon.Build.Location.{Anchor, anchor_origin, resolve_flight_location, validate}
use hitl_daemon.Build.LocationLaws.{anchor_origin-Agree}
use hitl_daemon.Build.Handler.{
  ConfigStage, simulation_unavailable, ConfigureBuild, State, World, handle, apply,
}
use hitl_daemon.Build.Course.{Course, OneOrigin, handle-Course, handle-OneOrigin, handle_retries}

abbrev gains_of : ℕ → Px4PidsView ℕ
gains_of p = record {
  roll_p = p;
  roll_i = p;
  roll_d = p;
  roll_ff = p;
  pitch_p = p;
  pitch_i = p;
  pitch_d = p;
  pitch_ff = p;
  yaw_p = p;
  yaw_i = p;
  yaw_d = p;
  yaw_ff = p;
}

abbrev pids : Library ℕ
pids = record { Px4Pids = ℕ; gains = gains_of; fingerprint = λ p. p }

abbrev params : ℕ → LastVerifiedParams bench pids
params hover = record { pids = 3; hover_cmd = hover; thr_min = 5; can_hover = true }

abbrev linked : PushState bench pids
linked = record {
  has_mav_tx = true;
  has_param_values = true;
  last_pid_fingerprint = some 7;
  last_verified_params = some (params 4);
}

push_pids_and_verify-Outcome_example :
    Outcome bench pids (params 4) linked [] (push_pids_and_verify bench pids (params 4) linked [])
push_pids_and_verify-Outcome_example = push_pids_and_verify-Outcome bench pids (params 4) linked []

abbrev is_finite : ℕ → Bool
is_finite x = true

abbrev neg : ℕ → ℕ
neg x = 0

abbrev holders : Anchor ℕ
holders = record {
  flight_origin = some (record { lat = 40; lon = 105; alt_datum = 1655; from_terrain = false });
  terrain_cache = some (with_capacity plain 2);
  fallback_alt = 1655;
}

abbrev start : State bench pids plain is_finite neg ℕ ℕ
start = record {
  flow = [];
  link = [];
  push = linked;
  fc_session = none;
  anchor = anchor_origin plain 51 12 (some 35) holders;
  configs = [];
}

abbrev request : ConfigureBuild bench pids plain is_finite neg ℕ ℕ
request = record {
  flight_location = some (record { lat = 46; lon = 7 });
  origin_elevation_msl = some 500;
  parts = 4;
}

abbrev no_board : Env ConfigStage
no_board = record {
  try_send = λ h m. Provision.sent;
  replies = λ h. [];
  now = λ h. 0;
  turns = λ h. [];
  texts = record { lines = λ text. text ∷ []; trim = λ text. text; to_lowercase = λ text. text };
}

abbrev world : World bench pids plain is_finite neg ℕ ℕ
world = record {
  board = no_board;
  door = record { armed_before = false; lock_free = true; armed_inside = false };
  computed = λ parts. some (record { config = parts; params = params 4 });
  armed_after_push = false;
  simulation_listens = false;
  generation_before = 0;
  generations = [];
}

handle-Course_example :
    Course bench pids plain is_finite neg ℕ ℕ world request start
      (handle bench pids plain is_finite neg ℕ ℕ world request start)
handle-Course_example = handle-Course bench pids plain is_finite neg ℕ ℕ world request start

handle-OneOrigin_example :
    OneOrigin bench pids plain is_finite neg ℕ ℕ world request
      (handle bench pids plain is_finite neg ℕ ℕ world request start).0.anchor
handle-OneOrigin_example =
    handle-OneOrigin bench pids plain is_finite neg ℕ ℕ world request start
      (anchor_origin-Agree plain 51 12 (some 35) holders).0

failed :
    (handle bench pids plain is_finite neg ℕ ℕ world request start).1
    ≡ some (err simulation_unavailable)
unfolding handle apply push_pids_and_verify push_params push_param params_of push_fingerprint
    xor_bits acked wait_for_param_ack resolve_flight_location validate
failed = refl

mav_tx : (handle bench pids plain is_finite neg ℕ ℕ world request start).0.push.has_mav_tx ≡ true
unfolding handle apply push_pids_and_verify push_params push_param params_of push_fingerprint
    xor_bits acked wait_for_param_ack resolve_flight_location validate invalidate_pid_fingerprint
mav_tx = refl

param_values :
    (handle bench pids plain is_finite neg ℕ ℕ world request start).0.push.has_param_values ≡ true
unfolding handle apply push_pids_and_verify push_params push_param params_of push_fingerprint
    xor_bits acked wait_for_param_ack resolve_flight_location validate invalidate_pid_fingerprint
param_values = refl

handle_retries_example :
    is_skipped bench pids (
      push_pids_and_verify bench pids
        (params 4)
        (handle bench pids plain is_finite neg ℕ ℕ world request start).0.push
        [])
    ≡ false
handle_retries_example =
    handle_retries bench pids plain is_finite neg ℕ ℕ world request start simulation_unavailable
      (params 4) [] refl failed mav_tx param_values

-- Every entry has all figures; the pack has no entry.
abbrev catalogue : ℕ → String → Option ℕ
catalogue entry name = some entry

abbrev defaults : Figures plain ℕ catalogue
defaults = record {
  propeller_weight_g = none;
  battery_weight_g = 0;
  c_rating = 75;
  continuous_amps = 30;
  burst_amps = none;
  esc_weight_g = none;
}

abbrev pack : Pack plain ℕ catalogue
pack = record { battery_capacity_mah = 10000; battery_cell_count = 4; esc_count = 4 }

assemble-Disclosed_example :
    Disclosed plain ℕ catalogue defaults pack
      (some 8)
      (some 45)
      none
      (assemble plain ℕ catalogue defaults pack (some 8) (some 45) none)
assemble-Disclosed_example =
    assemble-Disclosed plain ℕ catalogue defaults pack (some 8) (some 45) none
