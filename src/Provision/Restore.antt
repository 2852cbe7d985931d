-- ===== src/Provision/Restore.antt =====
-- crates/websocket/src/preflight.rs: `restore`, which writes a snapshot back to a board.
use Prim.Native.String.{String}
use text.Mathlib.Text.{◌==◌}
use hitl_daemon.Base.{ℕ, zero, suc, Bool, true, false, Option, none, some, List, [], ◌∷◌, map}
use hitl_daemon.Provision.{
  Setting, int_param, real_param, param_set, writing, verifying, ParamValue, SnapshotParam, Effect,
  drained, told_restore, Env, acked, send_with_backpressure,
}
use hitl_daemon.Provision.Cycle.{Cause, save_and_reboot, param_retry_count}
use hitl_daemon.Provision.Handler.{PreflightHandler, cooldown_remaining, mark_cycle_finished}
use hitl_daemon.Provision.Reads.{read_params_with}

module _ (e : Env) where
  open e use {F32, decoded_value, apart, to_i32, param_values, now}

  pub record RestoreSnapshot : Type 0 where
    pub board_identity : String
    pub params : List (SnapshotParam F32)

  pub record RestoreMismatch : Type 0 where
    pub name : String
    pub expected : F32
    pub actual : F32

  pub data RestoreError : Type 0 where
    settling in_progress sim_only no_identity other_board empty send_failed unconfirmed :
        RestoreError
    cycle : Cause → RestoreError
    unreadable : RestoreError
    mismatched : List RestoreMismatch → RestoreError

  -- A snapshot's parameter in the type it was captured with.
  unfoldable pub setting_of : SnapshotParam F32 → Setting F32
  setting_of param = elim param.param_type_int [
    | true ↦ int_param param.name (to_i32 param.value)
    | false ↦ real_param param.name param.value
  ]

  -- The attempts that are left to write one parameter back.
  unfoldable pub restore_attempts :
      ℕ → Setting F32 → List (Effect F32) → List (Effect F32) × Option RestoreError
  restore_attempts zero s h = (h, some unconfirmed)
  restore_attempts (suc n) s h =
      let (h2, failure) = send_with_backpressure e (param_set s) h in
      elim failure [
        | some _ ↦ (h2, some send_failed)
        | none ↦ elim (acked e s (param_values h2)) [
          | true ↦ (drained ∷ h2, none)
          | false ↦ restore_attempts n s (drained ∷ h2)
        ]
      ]

  unfoldable pub restore_all :
      List (SnapshotParam F32) → List (Effect F32) → List (Effect F32) × Option RestoreError
  unfolding restore_attempts setting_of
  restore_all [] h = (h, none)
  restore_all (param ∷ rest) h =
      let (h2, failure) = restore_attempts param_retry_count (setting_of param) h in
      elim failure [ some f ↦ (h2, some f) | none ↦ restore_all rest h2 ]

  unfoldable pub find_value : String → List (ParamValue F32) → Option (ParamValue F32)
  find_value name [] = none
  find_value name (v ∷ rest) = elim (v.name == name) [
    | true ↦ some v
    | false ↦ find_value name rest
  ]

  -- One parameter's comparison, in front of the mismatches of those behind it.
  unfoldable pub note_mismatch :
      SnapshotParam F32 → Option (ParamValue F32) → List RestoreMismatch → List RestoreMismatch
  note_mismatch x none others = others
  note_mismatch x (some v) others = elim (apart (decoded_value v) x.value) [
    | true ↦ record { name = x.name; expected = x.value; actual = decoded_value v } ∷ others
    | false ↦ others
  ]

  unfoldable pub mismatches :
      List (SnapshotParam F32) → List (ParamValue F32) → List RestoreMismatch
  unfolding find_value note_mismatch
  mismatches [] values = []
  mismatches (x ∷ rest) values = note_mismatch x (find_value x.name values) (mismatches rest values)

  -- The read-back, which ends a restore.
  unfoldable pub verify_restore :
      List (SnapshotParam F32) → List (Effect F32) → List (Effect F32) × Option RestoreError
  unfolding mismatches
  verify_restore params h =
      let (h2, (values, failed)) =
        read_params_with e (map (λ x. x.name) params) (told_restore verifying ∷ h) in
      elim failed [
        | _ ∷ _ ↦ (h2, some unreadable)
        | [] ↦ elim (mismatches params values) [
          | [] ↦ (h2, none)
          | m ∷ ms ↦ (h2, some (mismatched (m ∷ ms)))
        ]
      ]

  -- What `restore_inner` does once its guards have passed.
  unfoldable pub write_back :
      List (SnapshotParam F32) → List (Effect F32) → List (Effect F32) × Option RestoreError
  unfolding restore_all verify_restore
  write_back params h =
      let (h2, failure) = restore_all params (told_restore writing ∷ h) in
      elim failure [
        | some f ↦ (h2, some f)
        | none ↦
            let (h3, cause) = save_and_reboot e told_restore h2 in
            elim cause [ some c ↦ (h3, some (cycle c)) | none ↦ verify_restore params h3 ]
      ]

  -- What follows the comparison of the two identities.
  unfoldable pub restore_matching :
      Bool → List (SnapshotParam F32) → List (Effect F32) → List (Effect F32) × Option RestoreError
  unfolding write_back
  restore_matching false params h = (h, some other_board)
  restore_matching true [] h = (h, some empty)
  restore_matching true (x ∷ xs) h = write_back (x ∷ xs) h

  -- `restore_inner`, given whether an operation runs already, whether the session has a board, and
  -- the identity that board has told.
  unfoldable pub restore_guarded :
      Bool
      → Bool
      → Option String
      → RestoreSnapshot
      → List (Effect F32)
      → List (Effect F32) × Option RestoreError
  unfolding restore_matching
  restore_guarded true connected id request h = (h, some in_progress)
  restore_guarded false false id request h = (h, some sim_only)
  restore_guarded false true none request h = (h, some no_identity)
  restore_guarded false true (some board) request h =
      restore_matching (board == request.board_identity) request.params h

  unfoldable pub restore_inner :
      PreflightHandler e
      → RestoreSnapshot
      → List (Effect F32)
      → List (Effect F32) × Option RestoreError
  unfolding restore_guarded
  restore_inner p request h = restore_guarded p.applying p.connected p.board_identity request h

  unfoldable pub restore :
      PreflightHandler e
      → RestoreSnapshot
      → List (Effect F32)
      → (PreflightHandler e × List (Effect F32)) × Option RestoreError
  unfolding restore_inner
  restore p request h = elim (cooldown_remaining e p (now h)) [
    | some _ ↦ ((p, h), some settling)
    | none ↦
        let (h2, error) = restore_inner p request h in
        ((mark_cycle_finished e p (now h2), h2), error)
  ]
