-- ===== src/Protocol/Messages.antt =====
-- The binary messages of crates/websocket/src/protocol.rs that the daemon sends besides its state.
-- A text is the list of its UTF-8 bytes, a floating-point field its bit pattern.
use hitl_daemon.Base.{ℕ, Bool, if◌then◌else◌, Option, none, some, List, [], ◌∷◌, ◌++◌}
use hitl_daemon.Protocol.Bytes.{to_le_bytes, u8_from}

abbrev pub nul : List ℕ
nul = 0 ∷ []

-- `as_deref().unwrap_or("")`.
abbrev pub text_or_empty : Option (List ℕ) → List ℕ
text_or_empty none = []
text_or_empty (some text) = text

pub record HandshakeAck : Type 0 where
  pub version_major : ℕ
  pub version_minor : ℕ
  pub version_patch : ℕ
  pub pixhawk_connected : Bool
  pub serial_port : List ℕ

abbrev pub msg_type_handshake_ack : ℕ
msg_type_handshake_ack = 2

unfoldable pub handshake_ack_to_bytes : HandshakeAck → List ℕ
handshake_ack_to_bytes h =
    msg_type_handshake_ack
    ∷ h.version_major
    ∷ h.version_minor
    ∷ h.version_patch
    ∷ u8_from h.pixhawk_connected
    ∷ (h.serial_port ++ nul)

pub data LinkState : Type 0 where
  searching connected reconnecting suspected_bootloader : LinkState

pub record ConnectionStatus : Type 0 where
  pub connected : Bool
  pub reconnecting : Bool
  pub retry_count : ℕ
  pub serial_port : List ℕ
  pub fc_model : Option (List ℕ)
  pub bootloader_suspected : Bool
  pub link_state : LinkState

abbrev pub msg_type_connection_status : ℕ
msg_type_connection_status = 5

unfoldable pub connection_status_to_bytes : ConnectionStatus → List ℕ
connection_status_to_bytes c =
    msg_type_connection_status
    ∷ u8_from c.connected
    ∷ u8_from c.reconnecting
    ∷ c.retry_count
    ∷ (c.serial_port
        ++ (0 ∷ (text_or_empty c.fc_model ++ (0 ∷ u8_from c.bootloader_suspected ∷ []))))

pub record VehicleMessage : Type 0 where
  pub severity : ℕ
  pub timestamp_ms : ℕ
  pub text : List ℕ

abbrev pub msg_type_vehicle_message : ℕ
msg_type_vehicle_message = 6

unfoldable pub vehicle_message_to_bytes : VehicleMessage → List ℕ
vehicle_message_to_bytes v =
    msg_type_vehicle_message ∷ v.severity ∷ (to_le_bytes 4 v.timestamp_ms ++ (v.text ++ nul))

pub record NshResponse : Type 0 where
  pub request_id : ℕ
  pub success : Bool
  pub complete : Bool
  pub output : List ℕ

abbrev pub msg_type_nsh_response : ℕ
msg_type_nsh_response = 4

unfoldable pub nsh_response_to_bytes : NshResponse → List ℕ
nsh_response_to_bytes n =
    msg_type_nsh_response
    ∷ (to_le_bytes 4 n.request_id ++ (u8_from n.success ∷ u8_from n.complete ∷ (n.output ++ nul)))

pub record CommandAck : Type 0 where
  pub command_id : ℕ
  pub success : Bool
  pub error : Option (List ℕ)

abbrev pub msg_type_command_ack : ℕ
msg_type_command_ack = 3

unfoldable pub command_ack_to_bytes : CommandAck → List ℕ
command_ack_to_bytes c =
    msg_type_command_ack
    ∷ (to_le_bytes 4 c.command_id
        ++ (u8_from c.success ∷ (if c.success then [] else text_or_empty c.error ++ nul)))

pub record TerrainOrigin : Type 0 where
  pub ref_lat : ℕ
  pub ref_lon : ℕ
  pub ref_alt : ℕ
  pub source : ℕ

abbrev pub msg_type_terrain_origin : ℕ
msg_type_terrain_origin = 9

unfoldable pub terrain_origin_to_bytes : TerrainOrigin → List ℕ
terrain_origin_to_bytes t =
    msg_type_terrain_origin
    ∷ (to_le_bytes 8 t.ref_lat
        ++ (to_le_bytes 8 t.ref_lon ++ (to_le_bytes 4 t.ref_alt ++ (t.source ∷ []))))
