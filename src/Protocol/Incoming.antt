-- ===== src/Protocol/Incoming.antt =====
-- `IncomingMessage` of crates/websocket/src/protocol.rs: the messages that the daemon takes from the
-- browser. The bodies that serde reads from JSON are of given types, with given decoders.
use hitl_daemon.Base.{
  ℕ, not, ltb, ◌==◌, if◌then◌else◌, Option, none, some, List, [], ◌∷◌, length, drop, Result, ok,
  err, ◌>>=◌,
}
use hitl_daemon.Protocol.Bytes.{byte_at}
use hitl_daemon.Protocol.Errors.{
  arm, Reason, invalid_utf8, invalid_json, ProtocolError, message_too_short, unknown_message_type,
  invalid_payload,
}
use hitl_daemon.Protocol.Commands.{Command, msg_type_command}
use hitl_daemon.Protocol.Commands
use hitl_daemon.Protocol.Nsh.{NshCommand, msg_type_nsh_command}
use hitl_daemon.Protocol.Nsh
use hitl_daemon.Protocol.Tiles.{TerrainTilesHeader, TerrainTiles, msg_type_terrain_tiles}
use hitl_daemon.Protocol.Tiles

abbrev pub msg_type_shutdown : ℕ
msg_type_shutdown = 7

abbrev pub msg_type_handshake : ℕ
msg_type_handshake = 17

abbrev pub msg_type_configure_build : ℕ
msg_type_configure_build = 19

abbrev pub msg_type_request_preflight_check : ℕ
msg_type_request_preflight_check = 20

abbrev pub msg_type_apply_preflight_params : ℕ
msg_type_apply_preflight_params = 21

abbrev pub msg_type_snapshot_stored : ℕ
msg_type_snapshot_stored = 22

abbrev pub msg_type_restore_snapshot : ℕ
msg_type_restore_snapshot = 23

-- The decoders that the daemon takes from the standard library and from serde.
pub record Decoders (C S R : Type 0) : Type 0 where
  pub from_utf8_lossy : List ℕ → List ℕ
  pub from_utf8 : List ℕ → Option (List ℕ)
  pub configure_build : List ℕ → Option C
  pub snapshot_stored : List ℕ → Option S
  pub restore_snapshot : List ℕ → Option R
  pub tiles_header : List ℕ → Option TerrainTilesHeader

pub data IncomingMessage (C S R : Type 0) : Type 0 where
  command : Command → IncomingMessage C S R
  handshake : IncomingMessage C S R
  nsh_command : NshCommand → IncomingMessage C S R
  configure_build : C → IncomingMessage C S R
  shutdown request_preflight_check apply_preflight_params : IncomingMessage C S R
  snapshot_stored : S → IncomingMessage C S R
  restore_snapshot : R → IncomingMessage C S R
  terrain_tiles : TerrainTiles → IncomingMessage C S R

abbrev pub ok_or {ℓ} : {A : Type ℓ} → Reason → Option A → Result ProtocolError A
ok_or reason none = err (invalid_payload arm reason)
ok_or reason (some a) = ok a

-- The `from_bytes` of the messages with a JSON body, of at least two bytes.
unfoldable pub json_from_bytes {ℓ} :
    {A : Type ℓ} → ℕ → (List ℕ → Result ProtocolError A) → List ℕ → Result ProtocolError A
json_from_bytes tag decode bytes =
    if ltb (length bytes) 2
    then err (message_too_short 2 (length bytes))
    else if not (byte_at 0 bytes == tag)
    then err (unknown_message_type (byte_at 0 bytes))
    else decode (drop 1 bytes)

module _ {C S R : Type 0} (d : Decoders C S R) where
  unfoldable pub configure_build_from_bytes : List ℕ → Result ProtocolError C
  configure_build_from_bytes = json_from_bytes msg_type_configure_build (λ body.
      ok_or invalid_utf8 (d.from_utf8 body) >>= λ text. ok_or invalid_json (d.configure_build text))

  unfoldable pub snapshot_stored_from_bytes : List ℕ → Result ProtocolError S
  snapshot_stored_from_bytes =
      json_from_bytes msg_type_snapshot_stored (λ body. ok_or invalid_json (d.snapshot_stored body))

  unfoldable pub restore_snapshot_from_bytes : List ℕ → Result ProtocolError R
  restore_snapshot_from_bytes =
      json_from_bytes msg_type_restore_snapshot
        (λ body. ok_or invalid_json (d.restore_snapshot body))

  unfoldable pub dispatch : ℕ → List ℕ → Result ProtocolError (IncomingMessage C S R)
  dispatch tag bytes =
      if tag == msg_type_command
      then Commands.from_bytes bytes >>= (λ c. ok (command c))
      else if tag == msg_type_handshake
      then ok handshake
      else if tag == msg_type_nsh_command
      then Nsh.from_bytes d.from_utf8_lossy bytes >>= (λ c. ok (nsh_command c))
      else if tag == msg_type_configure_build
      then configure_build_from_bytes bytes >>= (λ c. ok (configure_build c))
      else if tag == msg_type_terrain_tiles
      then Tiles.from_bytes d.tiles_header bytes >>= (λ t. ok (terrain_tiles t))
      else if tag == msg_type_shutdown
      then ok shutdown
      else if tag == msg_type_request_preflight_check
      then ok request_preflight_check
      else if tag == msg_type_apply_preflight_params
      then ok apply_preflight_params
      else if tag == msg_type_snapshot_stored
      then snapshot_stored_from_bytes bytes >>= (λ s. ok (snapshot_stored s))
      else if tag == msg_type_restore_snapshot
      then restore_snapshot_from_bytes bytes >>= (λ r. ok (restore_snapshot r))
      else err (unknown_message_type tag)

  unfoldable pub from_bytes : List ℕ → Result ProtocolError (IncomingMessage C S R)
  from_bytes [] = err (message_too_short 1 0)
  from_bytes (tag ∷ rest) = dispatch tag (tag ∷ rest)
