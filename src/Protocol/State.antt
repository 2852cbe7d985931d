-- ===== src/Protocol/State.antt =====
-- `StateUpdate` of crates/websocket/src/protocol.rs: the frame that the daemon sends 30 times a
-- second, its encoder and its decoder.
use hitl_daemon.Base.{
  ℕ, Bool, not, ◌+◌, ltb, leb, ◌==◌, if◌then◌else◌, Option, none, some, List, [], ◌∷◌, ◌++◌, length,
  replicate, get_elem?, Result, ok, err,
}
use hitl_daemon.Protocol.Bytes.{
  to_le_bytes, from_le_bytes, slice, byte_at, copy_from_slice, u8_from, nonzero, put_floats, f32_at,
}
use hitl_daemon.Protocol.Errors.{ProtocolError, message_too_short, unknown_message_type}

-- `[f32; 3]` and `[f32; 4]`.
pub record Floats3 : Type 0 where
  pub a : ℕ
  pub b : ℕ
  pub c : ℕ

pub record Floats4 : Type 0 where
  pub a : ℕ
  pub b : ℕ
  pub c : ℕ
  pub d : ℕ

pub record StateUpdate : Type 0 where
  pub timestamp_us : ℕ
  pub position_ned : Floats3
  pub velocity_ned : Floats3
  pub quaternion_wxyz : Floats4
  pub angular_velocity : Floats3
  pub motor_rpms : Floats4
  pub battery_voltage : ℕ
  pub battery_percent : ℕ
  pub armed : Bool
  pub flight_mode : ℕ
  pub packets_per_sec : ℕ
  pub landed_state : ℕ
  pub battery_terminal_voltage : Option ℕ
  pub battery_current_a : Option ℕ
  pub board_stall : Option Bool

abbrev pub state_update_size : ℕ
state_update_size = 95

abbrev pub state_update_stall_size : ℕ
state_update_stall_size = 96

abbrev pub state_update_legacy_size : ℕ
state_update_legacy_size = 87

abbrev pub state_update_min_size : ℕ
state_update_min_size = 86

abbrev pub msg_type_state_update : ℕ
msg_type_state_update = 1

-- The bits of `f32::NAN`.
abbrev pub f32_nan : ℕ
f32_nan = 2143289344

abbrev pub unwrap_or : ℕ → Option ℕ → ℕ
unwrap_or d none = d
unwrap_or d (some v) = v

abbrev pub floats3 : Floats3 → List ℕ
floats3 v = v.a ∷ v.b ∷ v.c ∷ []

abbrev pub floats4 : Floats4 → List ℕ
floats4 v = v.a ∷ v.b ∷ v.c ∷ v.d ∷ []

-- The 87 bytes that every frame starts with.
unfoldable pub legacy_bytes : StateUpdate → List ℕ
legacy_bytes s =
    let b0 =
      copy_from_slice 0 (msg_type_state_update ∷ []) (replicate state_update_legacy_size 0) in
    let b1 = copy_from_slice 1 (to_le_bytes 8 s.timestamp_us) b0 in
    let b2 = put_floats 9 (floats3 s.position_ned) b1 in
    let b3 = put_floats 21 (floats3 s.velocity_ned) b2 in
    let b4 = put_floats 33 (floats4 s.quaternion_wxyz) b3 in
    let b5 = put_floats 49 (floats3 s.angular_velocity) b4 in
    let b6 = put_floats 61 (floats4 s.motor_rpms) b5 in
    let b7 = copy_from_slice 77 (to_le_bytes 4 s.battery_voltage) b6 in
    let b8 = copy_from_slice 81 (s.battery_percent ∷ u8_from s.armed ∷ s.flight_mode ∷ []) b7 in
    let b9 = copy_from_slice 84 (to_le_bytes 2 s.packets_per_sec) b8 in
    copy_from_slice 86 (s.landed_state ∷ []) b9

-- The bytes appended after them.
unfoldable pub load_bytes : Option Bool → Option ℕ → Option ℕ → List ℕ
load_bytes (some stall) voltage current =
    to_le_bytes 4 (unwrap_or f32_nan voltage)
    ++ (to_le_bytes 4 (unwrap_or f32_nan current) ++ (u8_from stall ∷ []))
load_bytes none (some voltage) (some current) = to_le_bytes 4 voltage ++ to_le_bytes 4 current
load_bytes none (some voltage) none = []
load_bytes none none current = []

unfoldable pub to_bytes : StateUpdate → List ℕ
to_bytes s =
    legacy_bytes s ++ load_bytes s.board_stall s.battery_terminal_voltage s.battery_current_a

unfoldable pub floats3_at : ℕ → List ℕ → Floats3
floats3_at offset bytes = record {
  a = f32_at offset bytes;
  b = f32_at (offset + 4) bytes;
  c = f32_at (offset + 8) bytes;
}

unfoldable pub floats4_at : ℕ → List ℕ → Floats4
floats4_at offset bytes = record {
  a = f32_at offset bytes;
  b = f32_at (offset + 4) bytes;
  c = f32_at (offset + 8) bytes;
  d = f32_at (offset + 12) bytes;
}

-- The decoded fields of a frame that is long enough.
unfoldable pub parse : List ℕ → StateUpdate
parse bytes = record {
  timestamp_us = from_le_bytes (slice 1 8 bytes);
  position_ned = floats3_at 9 bytes;
  velocity_ned = floats3_at 21 bytes;
  quaternion_wxyz = floats4_at 33 bytes;
  angular_velocity = floats3_at 49 bytes;
  motor_rpms = floats4_at 61 bytes;
  battery_voltage = f32_at 77 bytes;
  battery_percent = byte_at 81 bytes;
  armed = nonzero (byte_at 82 bytes);
  flight_mode = byte_at 83 bytes;
  packets_per_sec = from_le_bytes (slice 84 2 bytes);
  landed_state = unwrap_or 0 (get_elem? bytes 86);
  battery_terminal_voltage =
      if leb state_update_size (length bytes) then some (f32_at 87 bytes) else none;
  battery_current_a = if leb state_update_size (length bytes) then some (f32_at 91 bytes) else none;
  board_stall =
      if leb state_update_stall_size (length bytes)
      then some (nonzero (byte_at 95 bytes))
      else none;
}

unfoldable pub from_bytes : List ℕ → Result ProtocolError StateUpdate
from_bytes bytes =
    if ltb (length bytes) state_update_min_size
    then err (message_too_short state_update_min_size (length bytes))
    else if not (byte_at 0 bytes == msg_type_state_update)
    then err (unknown_message_type (byte_at 0 bytes))
    else ok (parse bytes)
