-- ===== src/Handler/Command.antt =====
-- `handle_command` and `handle_nsh_command` of crates/websocket/src/handler.rs. The texts of the
-- refusals are constructors, and the queues keep what was sent to them.
use hitl_daemon.Base.{
  ℕ, Bool, true, false, ◌||◌, ◌+◌, if◌then◌else◌, Option, none, some, List, [], ◌∷◌, ◌++◌,
}
use hitl_daemon.Stats.{SimulationStats}
use hitl_daemon.Gate.{Refusal, flight_in_progress, timebase_arming_gate}
use hitl_daemon.Protocol.Errors.{
  CommandType, arm, disarm, takeoff, land, rtl, set_mode, emergency_stop, recharge, reset_vehicle,
}
use hitl_daemon.Protocol.Commands.{Command}
use hitl_daemon.Handler.Rate.{RateLimits, check_rate_limit}

-- 1.0 and 100.0 as `f32`.
abbrev pub min_takeoff_altitude : ℕ
min_takeoff_altitude = 1065353216

abbrev pub max_takeoff_altitude : ℕ
max_takeoff_altitude = 1120403456

unfoldable pub begins_a_flight : CommandType → Bool
begins_a_flight arm = true
begins_a_flight takeoff = true
begins_a_flight disarm = false
begins_a_flight land = false
begins_a_flight rtl = false
begins_a_flight set_mode = false
begins_a_flight emergency_stop = false
begins_a_flight recharge = false
begins_a_flight reset_vehicle = false

abbrev pub is_recharge : CommandType → Bool
is_recharge recharge = true
is_recharge other = false

pub data CommandError : Type 0 where
  rate_limited recharge_unavailable altitude_not_specified altitude_out_of_range : CommandError
  mode_not_specified command_channel_closed : CommandError
  arming_refused : Refusal → CommandError

pub record Ack : Type 0 where
  pub command_id : ℕ
  pub success : Bool
  pub error : Option CommandError

pub record ValidatedCommand : Type 0 where
  pub command : Command
  pub client_id : ℕ

-- What the preflight handler sees of the simulation: its figures, if there are any, PX4's arming
-- state and its landed state.
pub record Preflight : Type 0 where
  pub timebase_stats : Option SimulationStats
  pub armed : Bool
  pub landed_state : ℕ

-- The handler's state, with what it has sent and how often it called for a recharge.
pub record Handler : Type 0 where
  pub rate_limits : RateLimits
  pub preflight : Option Preflight
  pub can_recharge : Bool
  pub channel_open : Bool
  pub recharges : ℕ
  pub forwarded : List ValidatedCommand

-- `arming_refusal` of crates/websocket/src/preflight.rs.
unfoldable pub arming_refusal : Preflight → Option Refusal
arming_refusal p = elim p.timebase_stats [
  | none ↦ none
  | some stats ↦ timebase_arming_gate stats (flight_in_progress p.armed p.landed_state)
]

abbrev pub refusal_of : Option Preflight → Option Refusal
refusal_of none = none
refusal_of (some p) = arming_refusal p

-- `<` of `f32`, on bit patterns, is given.
module _ (f32_lt : ℕ → ℕ → Bool) where
  abbrev pub validate_takeoff : Option ℕ → Option CommandError
  validate_takeoff none = some altitude_not_specified
  validate_takeoff (some altitude) =
      if f32_lt altitude min_takeoff_altitude || f32_lt max_takeoff_altitude altitude
      then some altitude_out_of_range
      else none

  abbrev pub validate_mode : Option ℕ → Option CommandError
  validate_mode none = some mode_not_specified
  validate_mode (some mode) = none

  abbrev pub validate_as : CommandType → Command → Option CommandError
  validate_as takeoff cmd = validate_takeoff cmd.takeoff_altitude
  validate_as set_mode cmd = validate_mode cmd.set_mode_value
  validate_as other cmd = none

  -- `none` is `Ok(())`.
  unfoldable pub validate_command : Command → Option CommandError
  validate_command cmd = validate_as cmd.command_type cmd

  abbrev pub refused : Command → CommandError → Ack
  refused cmd e = record { command_id = cmd.command_id; success = false; error = some e }

  abbrev pub accepted : Command → Ack
  accepted cmd = record { command_id = cmd.command_id; success = true; error = none }

  abbrev pub send : Handler → ℕ → Command → Handler × Ack
  send h client_id cmd =
      if h.channel_open
      then (
        record h {
          forwarded = h.forwarded ++ (record { command = cmd; client_id = client_id } ∷ []);
        },
        accepted cmd,
      )
      else (h, refused cmd command_channel_closed)

  abbrev pub send_unless : Option Refusal → Handler → ℕ → Command → Handler × Ack
  send_unless none h client_id cmd = send h client_id cmd
  send_unless (some r) h client_id cmd = (h, refused cmd (arming_refused r))

  abbrev pub gate_and_send : Option CommandError → Handler → ℕ → Command → Handler × Ack
  gate_and_send (some e) h client_id cmd = (h, refused cmd e)
  gate_and_send none h client_id cmd =
      if begins_a_flight cmd.command_type
      then send_unless (refusal_of h.preflight) h client_id cmd
      else send h client_id cmd

  abbrev pub call_recharge : Handler → Command → Handler × Ack
  call_recharge h cmd =
      if h.can_recharge
      then (record h { recharges = h.recharges + 1 }, accepted cmd)
      else (h, refused cmd recharge_unavailable)

  abbrev pub handle_admitted : Handler → ℕ → Command → Handler × Ack
  handle_admitted h client_id cmd =
      if is_recharge cmd.command_type
      then call_recharge h cmd
      else gate_and_send (validate_command cmd) h client_id cmd

  unfoldable pub handle_command : Handler → (now client_id : ℕ) → Command → Handler × Ack
  handle_command h now client_id cmd =
      let limited = check_rate_limit h.rate_limits client_id now in
      let counted = record h { rate_limits = limited.0 } in
      if limited.1
      then handle_admitted counted client_id cmd
      else (counted, refused cmd rate_limited)
