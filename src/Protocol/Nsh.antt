-- ===== src/Protocol/Nsh.antt =====
-- `NshCommand` of crates/websocket/src/protocol.rs, a shell command for the flight controller. A
-- text is the list of its UTF-8 bytes.
use hitl_daemon.Base.{
  ℕ, suc, not, ◌+◌, ◌-◌, ltb, ◌==◌, if◌then◌else◌, Option, none, some, List, [], ◌∷◌, ◌++◌, length,
  drop, Result, ok, err,
}
use mathlib.Core.Option
use hitl_daemon.Protocol.Bytes.{to_le_bytes, from_le_bytes, slice, byte_at}
use hitl_daemon.Protocol.Errors.{ProtocolError, message_too_short, unknown_message_type}

abbrev pub msg_type_nsh_command : ℕ
msg_type_nsh_command = 18

pub record NshCommand : Type 0 where
  pub request_id : ℕ
  pub timeout_ms : ℕ
  pub command : List ℕ

-- `iter().position(|&b| b == 0)`.
unfoldable pub position : List ℕ → Option ℕ
position [] = none
position (b ∷ bytes) = if b == 0 then some 0 else Option.map suc (position bytes)

unfoldable pub cmd_end : ℕ → ℕ → Option ℕ → ℕ
cmd_end start len none = len
cmd_end start len (some p) = start + p

-- `from_utf8_lossy`, on the bytes of a text, is given.
unfoldable pub from_bytes : (List ℕ → List ℕ) → List ℕ → Result ProtocolError NshCommand
from_bytes from_utf8_lossy bytes =
    if ltb (length bytes) 8
    then err (message_too_short 8 (length bytes))
    else if not (byte_at 0 bytes == msg_type_nsh_command)
    then err (unknown_message_type (byte_at 0 bytes))
    else ok record {
      request_id = from_le_bytes (slice 1 4 bytes);
      timeout_ms = from_le_bytes (slice 5 2 bytes);
      command =
          from_utf8_lossy (slice 7 (cmd_end 7 (length bytes) (position (drop 7 bytes)) - 7) bytes);
    }

unfoldable pub to_bytes : NshCommand → List ℕ
to_bytes c =
    msg_type_nsh_command
    ∷ (to_le_bytes 4 c.request_id ++ (to_le_bytes 2 c.timeout_ms ++ (c.command ++ (0 ∷ []))))
