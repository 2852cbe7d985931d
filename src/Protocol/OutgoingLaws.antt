-- ===== src/Protocol/OutgoingLaws.antt =====
-- What a reader of the daemon's messages can rely on.
use hitl_daemon.Base.{
  ℕ, Bool, true, false, ◌≡◌, ◌==◌, refl, ap, ◌≢◌, drop, Option, none, some, List, [], ◌∷◌, ◌++◌,
  arith,
}
use hitl_daemon.Protocol.Bytes.{byte_at, u8_from, nonzero}
use hitl_daemon.Protocol.State.{legacy_bytes}
use hitl_daemon.Protocol.State
use hitl_daemon.Protocol.Messages.{
  handshake_ack_to_bytes, ConnectionStatus, connection_status_to_bytes, vehicle_message_to_bytes,
  nsh_response_to_bytes, command_ack_to_bytes, terrain_origin_to_bytes, text_or_empty,
}
use hitl_daemon.Protocol.Outgoing.{
  OutgoingMessage, state_update, handshake_ack, command_ack, nsh_response, connection_status,
  vehicle_message, terrain_origin, config_result, terrain_need, snapshot_captured, restore_result,
  capabilities, preflight_status, preflight_apply_result, reset_result, json_to_bytes, to_bytes,
}

-- The kinds of messages, and the kind that a reader finds by the first byte.
pub data Kind : Type 0 where
  state handshake ack shell status vehicle origin config need captured restored capability preflight
        applied reset :
      Kind

abbrev pub kind : {J : Type 0} → OutgoingMessage J → Kind
kind (state_update _) = state
kind (handshake_ack _) = handshake
kind (command_ack _) = ack
kind (nsh_response _) = shell
kind (connection_status _) = status
kind (vehicle_message _) = vehicle
kind (terrain_origin _) = origin
kind (config_result _) = config
kind (terrain_need _) = need
kind (snapshot_captured _) = captured
kind (restore_result _) = restored
kind (capabilities _) = capability
kind (preflight_status _) = preflight
kind (preflight_apply_result _) = applied
kind (reset_result _) = reset

abbrev kinds : List (ℕ × Kind)
kinds =
    (1, state)
    ∷ (2, handshake)
    ∷ (3, ack)
    ∷ (4, shell)
    ∷ (5, status)
    ∷ (6, vehicle)
    ∷ (8, config)
    ∷ (9, origin)
    ∷ (10, preflight)
    ∷ (11, applied)
    ∷ (12, captured)
    ∷ (13, restored)
    ∷ (14, capability)
    ∷ (15, need)
    ∷ (25, reset)
    ∷ []

abbrev assoc : ℕ → List (ℕ × Kind) → Option Kind
assoc n [] = none
assoc n ((m, k) ∷ rest) = elim (n == m) [ true ↦ some k | false ↦ assoc n rest ]

abbrev pub kind_of_tag : ℕ → Option Kind
kind_of_tag n = assoc n kinds

tag-kind :
    {J : Type 0}
    → (to_vec : J → List ℕ) (m : OutgoingMessage J)
    → kind_of_tag (byte_at 0 (to_bytes to_vec m)) ≡ some (kind m)
unfolding to_bytes json_to_bytes State.to_bytes legacy_bytes handshake_ack_to_bytes
    connection_status_to_bytes vehicle_message_to_bytes nsh_response_to_bytes command_ack_to_bytes
    terrain_origin_to_bytes
tag-kind to_vec (state_update _) = refl
tag-kind to_vec (handshake_ack _) = refl
tag-kind to_vec (command_ack _) = refl
tag-kind to_vec (nsh_response _) = refl
tag-kind to_vec (connection_status _) = refl
tag-kind to_vec (vehicle_message _) = refl
tag-kind to_vec (terrain_origin _) = refl
tag-kind to_vec (config_result _) = refl
tag-kind to_vec (terrain_need _) = refl
tag-kind to_vec (snapshot_captured _) = refl
tag-kind to_vec (restore_result _) = refl
tag-kind to_vec (capabilities _) = refl
tag-kind to_vec (preflight_status _) = refl
tag-kind to_vec (preflight_apply_result _) = refl
tag-kind to_vec (reset_result _) = refl

-- Messages of different kinds never have the same first byte.
pub to_bytes-kind :
    {J : Type 0}
    → (to_vec : J → List ℕ) (m n : OutgoingMessage J)
    → byte_at 0 (to_bytes to_vec m) ≡ byte_at 0 (to_bytes to_vec n)
    → kind m ≡ kind n
to_bytes-kind to_vec m n h = cc (ap kind_of_tag h, tag-kind to_vec m, tag-kind to_vec n)

-- The layout of a status frame as the interface reads it.
abbrev NoNul : List ℕ → Type 0
NoNul [] = Unit {0}
NoNul (b ∷ bytes) = (b ≢ 0) × NoNul bytes

-- A text that ends with NUL, and what follows it.
abbrev read_text : List ℕ → List ℕ × List ℕ
read_text [] = ([], [])
read_text (b ∷ bytes) =
    let rest = read_text bytes in
    elim (b == 0) [ true ↦ ([], bytes) | false ↦ (b ∷ rest.0, rest.1) ]

read_text-append : (text rest : List ℕ) → NoNul text → read_text (text ++ (0 ∷ rest)) ≡ (text, rest)
read_text-append [] rest h = refl
read_text-append (b ∷ text) rest h = ground (arith, h, read_text-append text rest h.1)

-- The fields of a status frame where its documentation puts them.
abbrev pub read_status : List ℕ → Bool × Bool × ℕ × List ℕ × List ℕ × Bool
read_status bytes =
    let port = read_text (drop 4 bytes) in
    let model = read_text port.1 in
    (
      nonzero (byte_at 1 bytes),
      nonzero (byte_at 2 bytes),
      byte_at 3 bytes,
      port.0,
      model.0,
      nonzero (byte_at 0 model.1),
    )

nonzero-u8_from : (b : Bool) → nonzero (u8_from b) ≡ b
nonzero-u8_from true = refl
nonzero-u8_from false = refl

pub read_status-to_bytes :
    (c : ConnectionStatus)
    → NoNul c.serial_port
    → NoNul (text_or_empty c.fc_model)
    → read_status (connection_status_to_bytes c) ≡ (
      c.connected,
      c.reconnecting,
      c.retry_count,
      c.serial_port,
      text_or_empty c.fc_model,
      c.bootloader_suspected,
    )
unfolding connection_status_to_bytes
read_status-to_bytes c p m =
    let flag = u8_from c.bootloader_suspected ∷ [] in
    let model = text_or_empty c.fc_model in
    rw (read_text-append c.serial_port (model ++ (0 ∷ flag)) p) rw (read_text-append model flag m)
      (λ i. (
        nonzero-u8_from c.connected i,
        nonzero-u8_from c.reconnecting i,
        c.retry_count,
        c.serial_port,
        model,
        nonzero-u8_from c.bootloader_suspected i,
      ))
