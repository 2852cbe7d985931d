-- ===== src/Handler/Tests.antt =====
-- Requests and commands at concrete values, and the theorems at them.
use hitl_daemon.Base.{inl, ℕ, true, false, ◌≡◌, ◌≤◌, refl, ltb, none, some, List, [], ◌∷◌, arith}
use hitl_daemon.Stats.{default_stats}
use hitl_daemon.Gate.{flight_in_progress, session_is_compromised}
use hitl_daemon.Protocol.Errors.{arm, land}
use hitl_daemon.Protocol.Commands.{Command}
use hitl_daemon.Protocol.Nsh.{NshCommand}
use hitl_daemon.Protocol.Tiles.{TerrainTiles}
use hitl_daemon.Handler.Rate.{check_rate_limit}
use hitl_daemon.Handler.RateLaws.{Request, admitted, admitted-bound}
use hitl_daemon.Handler.Command.{Handler, Preflight, handle_command}
use hitl_daemon.Handler.CommandLaws.{
  Answered, Sent, Unchanged, handle_command-Answered, handle_command-Compromised,
  handle_command-ends,
}
use hitl_daemon.Handler.Shell.{NshQueue, Shell, handle_nsh_command}
use hitl_daemon.Handler.ShellLaws.{Handled, queue_or, handle_nsh_command-Handled}
use hitl_daemon.Handler.Ingress.{ingest}
use hitl_daemon.Handler.IngressLaws.{Ingested, ingest-Ingested}
use hitl_daemon.Terrain.Cache.{with_capacity}
use hitl_daemon.Terrain.Invariant.{with_capacity-WellFormed}
use hitl_daemon.Terrain.Tests.{plain}

abbrev request : ℕ → ℕ → Request
request client at = record { client_id = client; at = at }

-- Two clients, one of them twice.
abbrev requests : List Request
requests = request 1 0 ∷ request 2 5 ∷ request 1 900000000 ∷ []

admitted-bound_example : admitted [] 1 requests ≤ 20
admitted-bound_example =
    admitted-bound [] 1 0 1000000000 requests tt (omega arith)
      ((omega arith, omega arith), ((omega arith, omega arith), tt))

abbrev on_ground : Preflight
on_ground = record {
  timebase_stats = some (record default_stats { session_invalid = true });
  armed = true;
  landed_state = 1;
}

abbrev handler : Handler
handler = record {
  rate_limits = [];
  preflight = some on_ground;
  can_recharge = true;
  channel_open = true;
  recharges = 0;
  forwarded = [];
}

abbrev arming : Command
arming = record {
  command_id = 5;
  command_type = arm;
  takeoff_altitude = none;
  set_mode_value = none;
}

abbrev landing : Command
landing = record {
  command_id = 6;
  command_type = land;
  takeoff_altitude = none;
  set_mode_value = none;
}

handle_command-Answered_example : Answered handler 1 arming (handle_command ltb handler 0 1 arming)
handle_command-Answered_example = handle_command-Answered ltb handler 0 1 arming

handle_command-Compromised_example :
    ((handle_command ltb handler 0 1 arming).1.success ≡ false)
    × Unchanged handler (handle_command ltb handler 0 1 arming).0
unfolding session_is_compromised flight_in_progress
handle_command-Compromised_example =
    handle_command-Compromised ltb handler 0 1 arming (inl refl)
      (record default_stats { session_invalid = true }, refl, refl, refl)

handle_command-ends_example : Sent handler 1 landing (handle_command ltb handler 0 1 landing).0
unfolding check_rate_limit
handle_command-ends_example = handle_command-ends ltb handler 0 1 landing refl refl refl

abbrev queue : NshQueue
queue = record { open_ = true; capacity = 4; waiting = [] }

abbrev shell : Shell
shell = record { rate_limits = []; nsh_tx = some queue }

-- `ls`.
abbrev listing : NshCommand
listing = record { request_id = 9; timeout_ms = 0; command = 108 ∷ 115 ∷ [] }

abbrev as_it_is : List ℕ → List ℕ
as_it_is text = text

handle_nsh_command-Handled_example :
    let r = handle_nsh_command as_it_is shell 0 1 listing in
    Handled (108 ∷ 115 ∷ []) queue 1 listing (queue_or as_it_is queue r.0.nsh_tx, r.1)
handle_nsh_command-Handled_example =
    handle_nsh_command-Handled as_it_is shell queue 0 1 listing refl

abbrev as_bits : ℕ → ℕ
as_bits bits = bits

abbrev tiles : TerrainTiles
tiles = record {
  header = record {
    origin = record { lat = 1; lon = 2 };
    tile_size = 256;
    coords = record { x = 3; y = 4; z = 5 } ∷ [];
    approximate = [];
  };
  tiles = [] ∷ [];
}

ingest-Ingested_example :
    Ingested plain as_bits
      (with_capacity plain 2)
      tiles
      (ingest plain as_bits (with_capacity plain 2) tiles)
ingest-Ingested_example =
    ingest-Ingested plain as_bits (with_capacity plain 2) tiles (with_capacity-WellFormed plain 2)
