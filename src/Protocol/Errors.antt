-- ===== src/Protocol/Errors.antt =====
-- `CommandType` and `ProtocolError` of crates/websocket/src/protocol.rs. The texts of the errors
-- are the constructors of `Reason`, with the numbers that the texts print.
use hitl_daemon.Base.{ℕ}

pub data CommandType : Type 0 where
  arm disarm takeoff land rtl set_mode emergency_stop recharge reset_vehicle : CommandType

pub data Reason : Type 0 where
  takeoff_requires_altitude set_mode_requires_mode : Reason
  invalid_utf8 invalid_json : Reason
  frame_exceeds_limit : ℕ → Reason
  tile_size_zero tile_size_overflows : Reason
  approximate_flags : ℕ → ℕ → Reason
  payload_size_overflows : Reason
  payload_bytes : ℕ → ℕ → Reason

pub data ProtocolError : Type 0 where
  message_too_short : (expected actual : ℕ) → ProtocolError
  unknown_message_type : ℕ → ProtocolError
  invalid_command_type : ℕ → ProtocolError
  invalid_payload : CommandType → Reason → ProtocolError
