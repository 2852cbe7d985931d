-- ===== src/Protocol/Outgoing.antt =====
-- `OutgoingMessage` of crates/websocket/src/protocol.rs. The messages whose body is JSON are of one
-- type `J`, and the bytes that serde makes of them are given.
use hitl_daemon.Base.{ℕ, List, ◌∷◌}
use hitl_daemon.Protocol.State.{StateUpdate}
use hitl_daemon.Protocol.State
use hitl_daemon.Protocol.Messages.{
  HandshakeAck, handshake_ack_to_bytes, ConnectionStatus, connection_status_to_bytes,
  VehicleMessage, vehicle_message_to_bytes, NshResponse, nsh_response_to_bytes, CommandAck,
  command_ack_to_bytes, TerrainOrigin, terrain_origin_to_bytes,
}

pub data OutgoingMessage (J : Type 0) : Type 0 where
  state_update : StateUpdate → OutgoingMessage J
  handshake_ack : HandshakeAck → OutgoingMessage J
  command_ack : CommandAck → OutgoingMessage J
  nsh_response : NshResponse → OutgoingMessage J
  connection_status : ConnectionStatus → OutgoingMessage J
  vehicle_message : VehicleMessage → OutgoingMessage J
  terrain_origin : TerrainOrigin → OutgoingMessage J
  config_result terrain_need snapshot_captured restore_result : J → OutgoingMessage J
  capabilities preflight_status preflight_apply_result reset_result : J → OutgoingMessage J

abbrev pub msg_type_config_result : ℕ
msg_type_config_result = 8

abbrev pub msg_type_preflight_status : ℕ
msg_type_preflight_status = 10

abbrev pub msg_type_preflight_apply_result : ℕ
msg_type_preflight_apply_result = 11

abbrev pub msg_type_snapshot_captured : ℕ
msg_type_snapshot_captured = 12

abbrev pub msg_type_restore_result : ℕ
msg_type_restore_result = 13

abbrev pub msg_type_capabilities : ℕ
msg_type_capabilities = 14

abbrev pub msg_type_terrain_need : ℕ
msg_type_terrain_need = 15

abbrev pub msg_type_reset_result : ℕ
msg_type_reset_result = 25

-- The `to_bytes` of the messages with a JSON body: the tag and the body.
unfoldable pub json_to_bytes : {J : Type 0} → (J → List ℕ) → ℕ → J → List ℕ
json_to_bytes to_vec tag message = tag ∷ to_vec message

unfoldable pub to_bytes : {J : Type 0} → (J → List ℕ) → OutgoingMessage J → List ℕ
to_bytes to_vec (state_update s) = State.to_bytes s
to_bytes to_vec (handshake_ack h) = handshake_ack_to_bytes h
to_bytes to_vec (command_ack c) = command_ack_to_bytes c
to_bytes to_vec (nsh_response n) = nsh_response_to_bytes n
to_bytes to_vec (connection_status c) = connection_status_to_bytes c
to_bytes to_vec (vehicle_message v) = vehicle_message_to_bytes v
to_bytes to_vec (terrain_origin t) = terrain_origin_to_bytes t
to_bytes to_vec (config_result r) = json_to_bytes to_vec msg_type_config_result r
to_bytes to_vec (terrain_need t) = json_to_bytes to_vec msg_type_terrain_need t
to_bytes to_vec (snapshot_captured s) = json_to_bytes to_vec msg_type_snapshot_captured s
to_bytes to_vec (restore_result r) = json_to_bytes to_vec msg_type_restore_result r
to_bytes to_vec (capabilities c) = json_to_bytes to_vec msg_type_capabilities c
to_bytes to_vec (preflight_status p) = json_to_bytes to_vec msg_type_preflight_status p
to_bytes to_vec (preflight_apply_result p) = json_to_bytes to_vec msg_type_preflight_apply_result p
to_bytes to_vec (reset_result r) = json_to_bytes to_vec msg_type_reset_result r
