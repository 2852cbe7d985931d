-- ===== src/Protocol/CommandLaws.antt =====
-- What the decoders of commands make of what the encoders wrote.
use hitl_daemon.Base.{ℕ, ◌<◌, ◌≡◌, refl, ap, Option, none, some, Result, ok, err, arith}
use hitl_daemon.Protocol.Bytes.{to_le_bytes, from_le_bytes, le4}
use hitl_daemon.Protocol.Errors.{
  CommandType, arm, disarm, takeoff, land, rtl, set_mode, emergency_stop, recharge, reset_vehicle,
  takeoff_requires_altitude, set_mode_requires_mode, ProtocolError, invalid_payload,
}
use hitl_daemon.Protocol.Commands.{
  as_u8, try_from, Command, parse_payload, payload_bytes, from_bytes, to_bytes,
}

try_from-as_u8 : (t : CommandType) → try_from (as_u8 t) ≡ ok t
unfolding try_from
try_from-as_u8 arm = refl
try_from-as_u8 disarm = refl
try_from-as_u8 takeoff = refl
try_from-as_u8 land = refl
try_from-as_u8 rtl = refl
try_from-as_u8 set_mode = refl
try_from-as_u8 emergency_stop = refl
try_from-as_u8 recharge = refl
try_from-as_u8 reset_vehicle = refl

pub as_u8-try_from : (value : ℕ) (t : CommandType) → try_from value ≡ ok t → as_u8 t ≡ value
unfolding try_from
as_u8-try_from value t h = ground arith

-- The answer to the frame of a command: a payload that the type asks for must be there, and one
-- that it does not ask for is not sent.
abbrev pub heard : ℕ → CommandType → Option ℕ → Option ℕ → Result ProtocolError Command
heard id takeoff none mode = err (invalid_payload takeoff takeoff_requires_altitude)
heard id takeoff (some altitude) mode = ok record {
  command_id = id;
  command_type = takeoff;
  takeoff_altitude = some altitude;
  set_mode_value = none;
}
heard id set_mode altitude none = err (invalid_payload set_mode set_mode_requires_mode)
heard id set_mode altitude (some mode) = ok record {
  command_id = id;
  command_type = set_mode;
  takeoff_altitude = none;
  set_mode_value = some mode;
}
heard id other altitude mode =
    ok record {
      command_id = id;
      command_type = other;
      takeoff_altitude = none;
      set_mode_value = none;
    }

abbrev pub FitsAltitude : Option ℕ → Type 0
FitsAltitude none = Unit {0}
FitsAltitude (some v) = v < 4294967296

module _ (id : ℕ) (h : id < 4294967296) where
  heard-id :
      (t : CommandType) (a m : Option ℕ)
      → heard (from_le_bytes (to_le_bytes 4 id)) t a m ≡ heard id t a m
  heard-id t a m = ap (λ n. heard n t a m) (le4 id h)

  from_bytes-parts :
      (t : CommandType) (a m : Option ℕ)
      → FitsAltitude a
      → from_bytes (
          to_bytes
            record { command_id = id; command_type = t; takeoff_altitude = a; set_mode_value = m })
        ≡ heard id t a m
  unfolding from_bytes to_bytes try_from parse_payload payload_bytes
  from_bytes-parts takeoff (some v) m k = λ i. heard (le4 id h i) takeoff (some (le4 v k i)) m
  from_bytes-parts takeoff none m k = heard-id takeoff none m
  from_bytes-parts set_mode a (some m) k = heard-id set_mode a (some m)
  from_bytes-parts set_mode a none k = heard-id set_mode a none
  from_bytes-parts arm a m k = heard-id arm a m
  from_bytes-parts disarm a m k = heard-id disarm a m
  from_bytes-parts land a m k = heard-id land a m
  from_bytes-parts rtl a m k = heard-id rtl a m
  from_bytes-parts emergency_stop a m k = heard-id emergency_stop a m
  from_bytes-parts recharge a m k = heard-id recharge a m
  from_bytes-parts reset_vehicle a m k = heard-id reset_vehicle a m

-- A command with a 32-bit identifier and altitude is decoded to the same identifier and type with
-- the payload that the type has, and a takeoff without an altitude or a mode change without a mode
-- is refused as such.
pub from_bytes-heard :
    (c : Command)
    → c.command_id < 4294967296
    → FitsAltitude c.takeoff_altitude
    → from_bytes (to_bytes c)
      ≡ heard c.command_id c.command_type c.takeoff_altitude c.set_mode_value
from_bytes-heard c h k =
    from_bytes-parts c.command_id h c.command_type c.takeoff_altitude c.set_mode_value k
