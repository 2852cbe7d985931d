-- ===== src/Board/Nsh.antt =====
-- crates/websocket/src/nsh_await.rs: shell commands of the daemon's own, with their awaited replies.
-- A reply channel hands over a list of deliveries that ends with the deadline.
use hitl_daemon.Base.{
  ℕ, Bool, true, false, ◌&&◌, ◌||◌, ◌+◌, ◌==◌, if◌then◌else◌, Option, none, some, List, [], ◌∷◌,
  Result, ok, err, u32_max,
}
use hitl_daemon.Provision.{Delivery, delivered, lagged, closed, Sent, sent, full, disconnected}
use hitl_daemon.Protocol.Messages.{NshResponse}
use hitl_daemon.Handler.Shell.{starts_with, ValidatedNshCommand}

-- 0xFFFF_FF10.
abbrev pub internal_request_id_first : ℕ
internal_request_id_first = 4294967056

abbrev nsh_command_timeout_ms : ℕ
nsh_command_timeout_ms = 4000

-- What `next` leaves behind; it returns the id that was there.
unfoldable pub advance : ℕ → ℕ
advance id = if id == u32_max then internal_request_id_first else id + 1

pub data NshError : Type 0 where
  queue_full task_not_running no_reply channel_closed : NshError
  refused : List ℕ → NshError

unfoldable pub request_of : ℕ → List ℕ → ValidatedNshCommand
request_of request_id command = record {
  request_id = request_id;
  command = command;
  timeout_ms = nsh_command_timeout_ms;
  client_id = 0;
}

abbrev send_error : Sent → Option NshError
send_error sent = none
send_error full = some queue_full
send_error disconnected = some task_not_running

unfoldable pub contains : List ℕ → List ℕ → Bool
contains [] word = starts_with word []
contains (b ∷ text) word = starts_with word (b ∷ text) || contains text word

-- "error" and "failed".
abbrev error_word : List ℕ
error_word = 101 ∷ 114 ∷ 114 ∷ 111 ∷ 114 ∷ []

abbrev failed_word : List ℕ
failed_word = 102 ∷ 97 ∷ 105 ∷ 108 ∷ 101 ∷ 100 ∷ []

unfoldable pub judge_ekf2_stop : List ℕ → Result NshError (Unit {0})
judge_ekf2_stop output = ok tt

-- `lines`, `trim` and `to_lowercase` of texts are given.
pub record Texts : Type 0 where
  pub lines : List ℕ → List (List ℕ)
  pub trim : List ℕ → List ℕ
  pub to_lowercase : List ℕ → List ℕ

module _ (t : Texts) where
  abbrev is_failing : List ℕ → Bool
  is_failing line =
      contains (t.to_lowercase line) error_word || contains (t.to_lowercase line) failed_word

  unfoldable pub first_failing : List (List ℕ) → Option (List ℕ)
  first_failing [] = none
  first_failing (line ∷ lines) =
      if is_failing (t.trim line) then some (t.trim line) else first_failing lines

  abbrev pub judged : Option (List ℕ) → Result NshError (Unit {0})
  judged none = ok tt
  judged (some line) = err (refused line)

  unfoldable pub judge_ekf2_start : List ℕ → Result NshError (Unit {0})
  judge_ekf2_start output = judged (first_failing (t.lines output))

  -- The loop over the deliveries.
  unfoldable pub await_reply : ℕ → List (Delivery NshResponse) → Result NshError (List ℕ)
  await_reply request_id [] = err no_reply
  await_reply request_id (lagged ∷ rest) = await_reply request_id rest
  await_reply request_id (closed ∷ rest) = err channel_closed
  await_reply request_id (delivered reply ∷ rest) =
      elim (reply.request_id == request_id && reply.complete) [
        | true ↦ if reply.success then ok reply.output else err (refused (t.trim reply.output))
        | false ↦ await_reply request_id rest
      ]

  abbrev reply_after : Option NshError → ℕ → List (Delivery NshResponse) → Result NshError (List ℕ)
  reply_after none request_id deliveries = await_reply request_id deliveries
  reply_after (some e) request_id deliveries = err e

  -- `run_nsh`, from the outcome of `try_send` and what the reply channel then hands over.
  unfoldable pub run_nsh : ℕ → Sent → List (Delivery NshResponse) → Result NshError (List ℕ)
  run_nsh request_id outcome deliveries = reply_after (send_error outcome) request_id deliveries
