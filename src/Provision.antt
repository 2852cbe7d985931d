-- ===== src/Provision.antt =====
-- crates/websocket/src/preflight.rs: writing parameters to the flight controller, saving, rebooting
-- and waiting for it. An operation takes the history of what was done so far, newest first, and
-- returns it extended; what the world outside answers is a function of that history.
pub mod Cycle
pub mod Check
pub mod Reads
pub mod Handler
pub mod Restore
pub mod Counts
pub mod Writes
pub mod Order
pub mod Outcomes
pub mod Answers
pub mod Written
pub mod Rebooted
pub mod ReadBack
pub mod Reconnect
pub mod Tests
use Prim.Native.String.{String}
use text.Mathlib.Text.{◌==◌}
use hitl_daemon.Base.{
  ℕ, eqb, zero, suc, ◌≡◌, Bool, true, false, ◌&&◌, Option, none, some, List, [], ◌∷◌,
}

-- A parameter with the value to write. An i32 is its 32-bit pattern.
pub data Setting (F32 : Type 0) : Type 0 where
  int_param : String → ℕ → Setting F32
  real_param : String → F32 → Setting F32

pub data Message (F32 : Type 0) : Type 0 where
  param_set : Setting F32 → Message F32
  param_request_read : String → Message F32
  param_save : Message F32

-- The outcome of `try_send` on the queue to the MAVLink writer.
pub data Sent : Type 0 where
  sent full disconnected : Sent

pub data Phase : Type 0 where
  capturing applying writing rebooting reconnecting verifying : Phase

-- `param_type_int` is `is_integer` of the type the board declared.
pub record ParamValue (F32 : Type 0) : Type 0 where
  pub name : String
  pub value : F32
  pub param_type_int : Bool

pub record SnapshotParam (F32 : Type 0) : Type 0 where
  pub name : String
  pub value : F32
  pub param_type_int : Bool

pub data Effect (F32 : Type 0) : Type 0 where
  tried : Message F32 → Sent → Effect F32
  drained : Effect F32
  slept : ℕ → Effect F32
  told_apply : Phase → Effect F32
  told_restore : Phase → Effect F32
  captured : String → List (SnapshotParam F32) → Effect F32
  asked_nsh : Effect F32

-- What a broadcast receiver hands over before its wait times out; the list ends with the time.
pub data Delivery (A : Type 0) : Type 0 where
  delivered : A → Delivery A
  lagged : Delivery A
  closed : Delivery A

pub record SnapshotStored : Type 0 where
  pub board_identity : String
  pub stored : Bool

pub record Env : Type 1 where
  pub F32 : Type 0
  pub to_bits : F32 → ℕ
  -- The cast `value as i32`, and `decoded_value` of a parameter.
  pub to_i32 : F32 → ℕ
  pub decoded_value : ParamValue F32 → F32
  -- `(a - b).abs() <= PARAM_ACK_EPSILON` and `(a - b).abs() > PARAM_ACK_EPSILON`.
  pub close : F32 → F32 → Bool
  pub apart : F32 → F32 → Bool
  pub of_nat : ℕ → F32
  pub try_send : List (Effect F32) → Message F32 → Sent
  pub param_values : List (Effect F32) → List (Delivery (ParamValue F32))
  pub acknowledgements : List (Effect F32) → List (Delivery SnapshotStored)
  -- Whether a browser listens, and whether the shell's queue takes the reboot command.
  pub browser : List (Effect F32) → Bool
  pub nsh_accepts : List (Effect F32) → Bool
  -- The heartbeat count, and the two flags of the last heartbeat.
  pub heartbeat_status : List (Effect F32) → ℕ × Bool × Bool
  -- Milliseconds of the monotonic clock.
  pub now : List (Effect F32) → ℕ

module _ (e : Env) where
  open e use {F32, to_bits, close, of_nat, try_send, param_values}

  abbrev pub History : Type 0
  History = List (Effect F32)

  unfoldable pub wait_for_int_param_ack : String → ℕ → List (Delivery (ParamValue F32)) → Bool
  wait_for_int_param_ack name expected [] = false
  wait_for_int_param_ack name expected (delivered pv ∷ rest) =
      elim (pv.name == name && eqb (to_bits pv.value) expected) [
        | true ↦ true
        | false ↦ wait_for_int_param_ack name expected rest
      ]
  wait_for_int_param_ack name expected (lagged ∷ rest) = wait_for_int_param_ack name expected rest
  wait_for_int_param_ack name expected (closed ∷ rest) = false

  unfoldable pub wait_for_param_ack : String → F32 → List (Delivery (ParamValue F32)) → Bool
  wait_for_param_ack name expected [] = false
  wait_for_param_ack name expected (delivered pv ∷ rest) =
      elim (pv.name == name && close pv.value expected) [
        | true ↦ true
        | false ↦ wait_for_param_ack name expected rest
      ]
  wait_for_param_ack name expected (lagged ∷ rest) = wait_for_param_ack name expected rest
  wait_for_param_ack name expected (closed ∷ rest) = false

  unfoldable pub acked : Setting F32 → List (Delivery (ParamValue F32)) → Bool
  unfolding wait_for_int_param_ack wait_for_param_ack
  acked (int_param name value) = wait_for_int_param_ack name value
  acked (real_param name value) = wait_for_param_ack name value

  -- Why a message did not go out.
  pub data SendError : Type 0 where
    link_lost not_accepting : SendError

  -- The attempts that are left, 25 ms apart.
  unfoldable pub send_attempts : ℕ → Message F32 → History → History × Option SendError
  send_attempts zero message h = (h, some not_accepting)
  send_attempts (suc n) message h = elim (try_send h message) [
    | sent ↦ (tried message sent ∷ h, none)
    | full ↦ send_attempts n message (slept 25 ∷ tried message full ∷ h)
    | disconnected ↦ (tried message disconnected ∷ h, some link_lost)
  ]

  unfoldable pub send_with_backpressure : Message F32 → History → History × Option SendError
  unfolding send_attempts
  send_with_backpressure = send_attempts 40
