-- ===== src/Handler/Shell.antt =====
-- `handle_nsh_command` of crates/websocket/src/handler.rs: a shell command for the flight
-- controller. A text is the list of its UTF-8 bytes; `trim` and `to_lowercase` are given as one.
use hitl_daemon.Base.{
  ℕ, Bool, true, false, not, ◌&&◌, ◌||◌, ltb, leb, ◌==◌, if◌then◌else◌, Option, none, some, List,
  [], ◌∷◌, ◌++◌, length,
}
use hitl_daemon.Protocol.Nsh.{NshCommand}
use hitl_daemon.Handler.Rate.{RateLimits, check_rate_limit}

abbrev shutdown_word : List ℕ
shutdown_word = 115 ∷ 104 ∷ 117 ∷ 116 ∷ 100 ∷ 111 ∷ 119 ∷ 110 ∷ []

abbrev erase_word : List ℕ
erase_word = 101 ∷ 114 ∷ 97 ∷ 115 ∷ 101 ∷ []

abbrev format_word : List ℕ
format_word = 102 ∷ 111 ∷ 114 ∷ 109 ∷ 97 ∷ 116 ∷ []

abbrev hardfault_log_word : List ℕ
hardfault_log_word = 104 ∷ 97 ∷ 114 ∷ 100 ∷ 102 ∷ 97 ∷ 117 ∷ 108 ∷ 116 ∷ 95 ∷ 108 ∷ 111 ∷ 103 ∷ []

abbrev bl_update_word : List ℕ
bl_update_word = 98 ∷ 108 ∷ 95 ∷ 117 ∷ 112 ∷ 100 ∷ 97 ∷ 116 ∷ 101 ∷ []

-- `BLOCKED_NSH_COMMANDS`.
abbrev pub blocked_nsh_commands : List (List ℕ)
blocked_nsh_commands =
    shutdown_word ∷ erase_word ∷ format_word ∷ hardfault_log_word ∷ bl_update_word ∷ []

unfoldable pub same_bytes : List ℕ → List ℕ → Bool
same_bytes [] [] = true
same_bytes [] (c ∷ t) = false
same_bytes (b ∷ s) [] = false
same_bytes (b ∷ s) (c ∷ t) = b == c && same_bytes s t

-- `s.starts_with(prefix)`.
unfoldable pub starts_with : List ℕ → List ℕ → Bool
starts_with [] s = true
starts_with (b ∷ prefix) [] = false
starts_with (b ∷ prefix) (c ∷ s) = b == c && starts_with prefix s

abbrev pub is_blocked_by : List ℕ → List ℕ → Bool
is_blocked_by cmd_lower blocked =
    same_bytes cmd_lower blocked || starts_with (blocked ++ (32 ∷ [])) cmd_lower

-- The first blocked word that fits.
unfoldable pub blocked_by : List ℕ → List (List ℕ) → Option (List ℕ)
blocked_by cmd_lower [] = none
blocked_by cmd_lower (blocked ∷ words) =
    if is_blocked_by cmd_lower blocked then some blocked else blocked_by cmd_lower words

pub record ValidatedNshCommand : Type 0 where
  pub request_id : ℕ
  pub command : List ℕ
  pub timeout_ms : ℕ
  pub client_id : ℕ

-- The bounded channel to the shell task, with what waits in it.
pub record NshQueue : Type 0 where
  pub open_ : Bool
  pub capacity : ℕ
  pub waiting : List ValidatedNshCommand

pub data NshOutput : Type 0 where
  unavailable rate_limited empty_command too_long busy channel_closed no_output : NshOutput
  blocked : List ℕ → NshOutput

pub record NshAnswer : Type 0 where
  pub request_id : ℕ
  pub success : Bool
  pub complete : Bool
  pub output : NshOutput

pub record Shell : Type 0 where
  pub rate_limits : RateLimits
  pub nsh_tx : Option NshQueue

abbrev pub refuse : NshCommand → NshOutput → NshAnswer
refuse nsh output = record {
  request_id = nsh.request_id;
  success = false;
  complete = true;
  output = output;
}

abbrev pub validated : ℕ → NshCommand → ValidatedNshCommand
validated client_id nsh = record {
  request_id = nsh.request_id;
  command = nsh.command;
  timeout_ms = if nsh.timeout_ms == 0 then 2000 else nsh.timeout_ms;
  client_id = client_id;
}

-- `try_send` and the answer to its outcome.
abbrev pub try_send : NshQueue → ℕ → NshCommand → NshQueue × NshAnswer
try_send q client_id nsh =
    if not q.open_
    then (q, refuse nsh channel_closed)
    else if leb q.capacity (length q.waiting)
    then (q, refuse nsh busy)
    else (
      record q { waiting = q.waiting ++ (validated client_id nsh ∷ []) },
      record { request_id = nsh.request_id; success = true; complete = false; output = no_output },
    )

abbrev pub send_unblocked : Option (List ℕ) → NshQueue → ℕ → NshCommand → NshQueue × NshAnswer
send_unblocked (some word) q client_id nsh = (q, refuse nsh (blocked word))
send_unblocked none q client_id nsh = try_send q client_id nsh

module _ (trim_to_lowercase : List ℕ → List ℕ) where
  unfoldable pub check_and_send : NshQueue → ℕ → NshCommand → NshQueue × NshAnswer
  check_and_send q client_id nsh =
      if length nsh.command == 0
      then (q, refuse nsh empty_command)
      else if ltb 256 (length nsh.command)
      then (q, refuse nsh too_long)
      else send_unblocked (blocked_by (trim_to_lowercase nsh.command) blocked_nsh_commands) q
          client_id nsh

  abbrev pub handle_on :
      Option NshQueue → Shell → (now client_id : ℕ) → NshCommand → Shell × NshAnswer
  handle_on none h now client_id nsh = (h, refuse nsh unavailable)
  handle_on (some q) h now client_id nsh =
      let limited = check_rate_limit h.rate_limits client_id now in
      let r = if limited.1 then check_and_send q client_id nsh else (q, refuse nsh rate_limited) in
      (record { rate_limits = limited.0; nsh_tx = some r.0 }, r.1)

  unfoldable pub handle_nsh_command : Shell → (now client_id : ℕ) → NshCommand → Shell × NshAnswer
  handle_nsh_command h now client_id nsh = handle_on h.nsh_tx h now client_id nsh
