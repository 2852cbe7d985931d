-- ===== src/Protocol/Commands.antt =====
-- `CommandType`'s codes and `Command` of crates/websocket/src/protocol.rs.
use hitl_daemon.Base.{
  ℕ, not, ltb, ◌==◌, if◌then◌else◌, Option, none, some, List, [], ◌∷◌, ◌++◌, length, Result, ok,
  err, ◌>>=◌,
}
use hitl_daemon.Protocol.Bytes.{to_le_bytes, from_le_bytes, slice, byte_at}
use hitl_daemon.Protocol.Errors.{
  CommandType, arm, disarm, takeoff, land, rtl, set_mode, emergency_stop, recharge, reset_vehicle,
  takeoff_requires_altitude, set_mode_requires_mode, ProtocolError, message_too_short,
  unknown_message_type, invalid_command_type, invalid_payload,
}

abbrev pub msg_type_command : ℕ
msg_type_command = 16

-- `command_type as u8`.
abbrev pub as_u8 : CommandType → ℕ
as_u8 arm = 0
as_u8 disarm = 1
as_u8 takeoff = 2
as_u8 land = 3
as_u8 rtl = 4
as_u8 set_mode = 5
as_u8 emergency_stop = 6
as_u8 recharge = 7
as_u8 reset_vehicle = 8

unfoldable pub try_from : ℕ → Result ProtocolError CommandType
try_from value =
    if value == 0
    then ok arm
    else if value == 1
    then ok disarm
    else if value == 2
    then ok takeoff
    else if value == 3
    then ok land
    else if value == 4
    then ok rtl
    else if value == 5
    then ok set_mode
    else if value == 6
    then ok emergency_stop
    else if value == 7
    then ok recharge
    else if value == 8
    then ok reset_vehicle
    else err (invalid_command_type value)

pub record Command : Type 0 where
  pub command_id : ℕ
  pub command_type : CommandType
  pub takeoff_altitude : Option ℕ
  pub set_mode_value : Option ℕ

-- The payload that the type of a command asks for.
unfoldable pub parse_payload : CommandType → ℕ → List ℕ → Result ProtocolError Command
parse_payload takeoff id bytes =
    if ltb (length bytes) 10
    then err (invalid_payload takeoff takeoff_requires_altitude)
    else ok record {
      command_id = id;
      command_type = takeoff;
      takeoff_altitude = some (from_le_bytes (slice 6 4 bytes));
      set_mode_value = none;
    }
parse_payload set_mode id bytes =
    if ltb (length bytes) 7
    then err (invalid_payload set_mode set_mode_requires_mode)
    else ok record {
      command_id = id;
      command_type = set_mode;
      takeoff_altitude = none;
      set_mode_value = some (byte_at 6 bytes);
    }
parse_payload other id bytes =
    ok record {
      command_id = id;
      command_type = other;
      takeoff_altitude = none;
      set_mode_value = none;
    }

unfoldable pub from_bytes : List ℕ → Result ProtocolError Command
from_bytes bytes =
    if ltb (length bytes) 6
    then err (message_too_short 6 (length bytes))
    else if not (byte_at 0 bytes == msg_type_command)
    then err (unknown_message_type (byte_at 0 bytes))
    else try_from (byte_at 5 bytes) >>= λ t. parse_payload t (from_le_bytes (slice 1 4 bytes)) bytes

unfoldable pub payload_bytes : CommandType → Option ℕ → Option ℕ → List ℕ
payload_bytes takeoff (some altitude) mode = to_le_bytes 4 altitude
payload_bytes takeoff none mode = []
payload_bytes set_mode altitude (some mode) = mode ∷ []
payload_bytes set_mode altitude none = []
payload_bytes other altitude mode = []

unfoldable pub to_bytes : Command → List ℕ
to_bytes c =
    msg_type_command
    ∷ (to_le_bytes 4 c.command_id
        ++ (as_u8 c.command_type
            ∷ payload_bytes c.command_type c.takeoff_altitude c.set_mode_value))
