-- ===== src/Protocol/Tests.antt =====
-- Messages at concrete values, and the theorems at them.
use hitl_daemon.Base.{ℕ, true, false, ◌≡◌, refl, Option, none, some, List, [], ◌∷◌, inl, ok, arith}
use hitl_daemon.Protocol.Errors.{takeoff}
use hitl_daemon.Protocol.State.{Floats3, Floats4, StateUpdate}
use hitl_daemon.Protocol.State
use hitl_daemon.Protocol.StateLaws.{Fits, as_sent, from_bytes-to_bytes}
use hitl_daemon.Protocol.Commands.{Command}
use hitl_daemon.Protocol.Tiles.{TerrainTilesHeader, TerrainTiles, max_frame_bytes, flags_match}
use hitl_daemon.Protocol.Tiles
use hitl_daemon.Protocol.TileRoundtrip.{frame, FitsFrame, from_bytes-frame}
use hitl_daemon.Protocol.Incoming.{Decoders}

abbrev v3 : Floats3
v3 = record { a = 1065353216; b = 0; c = 3212836864 }

abbrev v4 : Floats4
v4 = record { a = 1065353216; b = 0; c = 0; d = 7 }

-- A state with the stall flag and without a load current.
abbrev state : StateUpdate
state = record {
  timestamp_us = 1000000;
  position_ned = v3;
  velocity_ned = v3;
  quaternion_wxyz = v4;
  angular_velocity = v3;
  motor_rpms = v4;
  battery_voltage = 1097859072;
  battery_percent = 80;
  armed = true;
  flight_mode = 3;
  packets_per_sec = 400;
  landed_state = 2;
  battery_terminal_voltage = some 1096810496;
  battery_current_a = none;
  board_stall = some false;
}

state-Fits : Fits state
state-Fits = record {
  timestamp_us = omega arith;
  position_ned = record { a = omega arith; b = omega arith; c = omega arith };
  velocity_ned = record { a = omega arith; b = omega arith; c = omega arith };
  quaternion_wxyz = record { a = omega arith; b = omega arith; c = omega arith; d = omega arith };
  angular_velocity = record { a = omega arith; b = omega arith; c = omega arith };
  motor_rpms = record { a = omega arith; b = omega arith; c = omega arith; d = omega arith };
  battery_voltage = omega arith;
  packets_per_sec = omega arith;
  terminal = omega arith;
  current = tt;
}

from_bytes-to_bytes_example : State.from_bytes (State.to_bytes state) ≡ ok (as_sent state)
from_bytes-to_bytes_example = from_bytes-to_bytes state state-Fits

abbrev climb : Command
climb = record {
  command_id = 70000;
  command_type = takeoff;
  takeoff_altitude = some 1092616192;
  set_mode_value = none;
}

-- Tiles of one sample, a header of three bytes.
abbrev header : TerrainTilesHeader
header = record {
  origin = record { lat = 1; lon = 2 };
  tile_size = 1;
  coords = record { x = 3; y = 4; z = 5 } ∷ record { x = 4; y = 4; z = 5 } ∷ [];
  approximate = true ∷ false ∷ [];
}

abbrev to_vec : TerrainTilesHeader → List ℕ
to_vec h = 123 ∷ 32 ∷ 125 ∷ []

abbrev from_slice : List ℕ → Option TerrainTilesHeader
from_slice bytes = some header

abbrev terrain : TerrainTiles
terrain = record { header = header; tiles = (1165590528 ∷ []) ∷ (1165598720 ∷ []) ∷ [] }

abbrev sent : List ℕ
sent = 24 ∷ 3 ∷ 0 ∷ 0 ∷ 0 ∷ 123 ∷ 32 ∷ 125 ∷ 0 ∷ 128 ∷ 121 ∷ 69 ∷ 0 ∷ 160 ∷ 121 ∷ 69 ∷ []

decoded : Tiles.from_bytes from_slice sent ≡ ok terrain
unfolding Tiles.from_bytes Tiles.parse_header Tiles.parse_body Tiles.checked Tiles.flags_match
    Tiles.body_start Tiles.tiles_from Tiles.chunks_exact Tiles.heights
decoded = refl

terrain-FitsFrame : FitsFrame terrain
unfolding flags_match
terrain-FitsFrame = record {
  positive = omega arith;
  small = omega arith;
  flags = refl;
  count = refl;
  tiles = ((refl, (omega arith, tt)), ((refl, (omega arith, tt)), tt));
}

from_bytes-frame_example : Tiles.from_bytes from_slice (frame to_vec [] terrain) ≡ ok terrain
unfolding Tiles.tiles_bytes Tiles.tile_bytes
from_bytes-frame_example =
    from_bytes-frame to_vec terrain [] from_slice refl terrain-FitsFrame (inl refl) (omega arith)

abbrev decoders : Decoders ℕ ℕ ℕ
decoders = record {
  from_utf8_lossy = λ text. text;
  from_utf8 = λ text. some text;
  configure_build = λ text. none;
  snapshot_stored = λ text. none;
  restore_snapshot = λ text. none;
  tiles_header = from_slice;
}
