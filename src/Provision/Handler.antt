-- ===== src/Provision/Handler.antt =====
-- crates/websocket/src/preflight.rs: the restore point, `apply` and the guards in front of it;
-- crates/websocket/src/snapshot.rs: the session's copy of the restore point.
use Prim.Native.String.{String}
use text.Mathlib.Text.{◌==◌}
use hitl_daemon.Base.{
  ℕ, zero, suc, ◌-◌, leb, Bool, true, false, Option, none, some, List, [], ◌∷◌, map, if◌then◌else◌,
}
use hitl_daemon.Provision.{
  Setting, int_param, real_param, capturing, ParamValue, SnapshotParam, Effect, drained, told_apply,
  captured, Delivery, delivered, lagged, closed, SnapshotStored, Env,
}
use hitl_daemon.Provision.Reads.{read_params_with}
use hitl_daemon.Provision.Cycle.{Cause, fatal, retryable, apply_once, provisioned}

pub data CaptureError : Type 0 where
  no_identity unreadable no_browser not_confirmed not_stored browser_lost : CaptureError

pub data ApplyError : Type 0 where
  settling in_progress sim_only exhausted : ApplyError
  not_captured : CaptureError → ApplyError
  cycle_failed : Cause → ApplyError

abbrev pub provision_attempts : ℕ
provision_attempts = 2

-- 15 s.
abbrev pub cycle_cooldown : ℕ
cycle_cooldown = 15000

unfoldable pub param_name : {F32 : Type 0} → Setting F32 → String
param_name (int_param name value) = name
param_name (real_param name value) = name

module _ (e : Env) where
  open e use {
    F32, decoded_value, apart, to_i32, try_send, param_values, acknowledgements, browser, now,
  }

  pub record StoredSnapshot : Type 0 where
    pub board_identity : String
    pub params : List (SnapshotParam F32)

  unfoldable pub get : Option StoredSnapshot → String → Option StoredSnapshot
  get none board = none
  get (some held) board = if held.board_identity == board then some held else none

  unfoldable pub await_snapshot_ack : String → List (Delivery SnapshotStored) → Option CaptureError
  await_snapshot_ack board [] = some not_confirmed
  await_snapshot_ack board (delivered ack ∷ rest) = elim (ack.board_identity == board) [
    | true ↦ if ack.stored then none else some not_stored
    | false ↦ await_snapshot_ack board rest
  ]
  await_snapshot_ack board (lagged ∷ rest) = await_snapshot_ack board rest
  await_snapshot_ack board (closed ∷ rest) = some browser_lost

  unfoldable pub snapshot_param : ParamValue F32 → SnapshotParam F32
  snapshot_param v = record {
    name = v.name;
    value = decoded_value v;
    param_type_int = v.param_type_int;
  }

  -- The handler's fields that the operations read or change. The parameter channels are there
  -- exactly when the session has a board.
  pub record PreflightHandler : Type 0 where
    pub connected : Bool
    pub applying : Bool
    pub board_identity : Option String
    pub session_snapshot : Option StoredSnapshot
    pub last_cycle_finished : Option ℕ

  -- The hand-off to the browser of the values that were read, and its answer.
  unfoldable pub hand_off :
      PreflightHandler
      → String
      → List (ParamValue F32)
      → List (Effect F32)
      → (PreflightHandler × List (Effect F32)) × Option CaptureError
  unfolding await_snapshot_ack snapshot_param
  hand_off p board values h =
      let params = map snapshot_param values in
      let q = record p {
        session_snapshot = some (record { board_identity = board; params = params });
      } in
      elim (browser h) [
        | false ↦ ((q, h), some no_browser)
        | true ↦ (
          (q, drained ∷ captured board params ∷ h),
          await_snapshot_ack board (acknowledgements (captured board params ∷ h)),
        )
      ]

  -- The capture of the named parameters, given the identity the board has told.
  unfoldable pub capture_board :
      Option String
      → PreflightHandler
      → List String
      → List (Effect F32)
      → (PreflightHandler × List (Effect F32)) × Option CaptureError
  unfolding read_params_with hand_off
  capture_board none p names h = ((p, h), some no_identity)
  capture_board (some board) p names h =
      let (h2, (values, missing)) = read_params_with e names h in
      elim missing [ _ ∷ _ ↦ ((p, h2), some unreadable) | [] ↦ hand_off p board values h2 ]

  unfoldable pub capture_and_confirm_snapshot :
      PreflightHandler
      → List (Effect F32)
      → (PreflightHandler × List (Effect F32)) × Option CaptureError
  unfolding capture_board provisioned param_name
  capture_and_confirm_snapshot p h =
      capture_board p.board_identity p (map param_name (provisioned e)) h

  -- The provisioning attempts that are left.
  unfoldable pub provision : ℕ → List (Effect F32) → List (Effect F32) × Option ApplyError
  unfolding apply_once
  provision zero h = (h, some exhausted)
  provision (suc n) h =
      let (h2, failure) = apply_once e h in
      elim failure [
        | none ↦ (h2, none)
        | some (fatal c) ↦ (h2, some (cycle_failed c))
        | some (retryable c) ↦ elim n [
          | zero ↦ (h2, some (cycle_failed c))
          | suc m ↦ provision n h2
        ]
      ]

  unfoldable pub cooldown_remaining : PreflightHandler → ℕ → Option ℕ
  cooldown_remaining p instant = elim p.last_cycle_finished [
    | none ↦ none
    | some finished ↦
        if leb cycle_cooldown (instant - finished)
        then none
        else some (cycle_cooldown - (instant - finished))
  ]

  -- What follows the answer about the restore point.
  unfoldable pub apply_confirmed :
      Option CaptureError
      → PreflightHandler
      → List (Effect F32)
      → (PreflightHandler × List (Effect F32)) × Option ApplyError
  unfolding provision
  apply_confirmed (some c) p h = ((p, h), some (not_captured c))
  apply_confirmed none p h = let (h2, error) = provision provision_attempts h in ((p, h2), error)

  -- `apply_inner`, given whether an operation runs already and whether the session has a board.
  unfoldable pub apply_guarded :
      Bool
      → Bool
      → PreflightHandler
      → List (Effect F32)
      → (PreflightHandler × List (Effect F32)) × Option ApplyError
  unfolding capture_and_confirm_snapshot apply_confirmed
  apply_guarded true connected p h = ((p, h), some in_progress)
  apply_guarded false false p h = ((p, h), some sim_only)
  apply_guarded false true p h =
      let ((q, h2), refused) = capture_and_confirm_snapshot p (told_apply capturing ∷ h) in
      apply_confirmed refused q h2

  unfoldable pub apply_inner :
      PreflightHandler
      → List (Effect F32)
      → (PreflightHandler × List (Effect F32)) × Option ApplyError
  unfolding apply_guarded
  apply_inner p h = apply_guarded p.applying p.connected p h

  unfoldable pub mark_cycle_finished : PreflightHandler → ℕ → PreflightHandler
  mark_cycle_finished p instant = record p { last_cycle_finished = some instant }

  unfoldable pub apply :
      PreflightHandler
      → List (Effect F32)
      → (PreflightHandler × List (Effect F32)) × Option ApplyError
  unfolding cooldown_remaining apply_inner mark_cycle_finished
  apply p h = elim (cooldown_remaining p (now h)) [
    | some _ ↦ ((p, h), some settling)
    | none ↦ let ((q, h2), error) = apply_inner p h in ((mark_cycle_finished q (now h2), h2), error)
  ]
