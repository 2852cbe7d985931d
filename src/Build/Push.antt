-- ===== src/Build/Push.antt =====
-- crates/websocket/src/build_config.rs: the parameters of a build, written and confirmed one by one.
-- `Px4Pids` and its fingerprint are the physics library's.
use Prim.Native.String.{String}
use hitl_daemon.Base.{
  ℕ, zero, suc, ◌+◌, ◌*◌, ◌/◌, ◌%◌, ◌^◌, ◌==◌, Bool, true, false, not, ◌||◌, if◌then◌else◌, Option,
  none, some, List, [], ◌∷◌, ◌++◌, Result, ok, err,
}
use hitl_daemon.Provision.{
  Setting, int_param, real_param, param_set, param_save, sent, full, disconnected, Effect, tried,
  drained, slept, Env, acked,
}
use hitl_daemon.Provision.Cycle.{param_retry_count}

-- Also `Px4PidsView` of protocol.rs.
pub record Px4PidsView (F32 : Type 0) : Type 0 where
  pub roll_p : F32
  pub roll_i : F32
  pub roll_d : F32
  pub roll_ff : F32
  pub pitch_p : F32
  pub pitch_i : F32
  pub pitch_d : F32
  pub pitch_ff : F32
  pub yaw_p : F32
  pub yaw_i : F32
  pub yaw_d : F32
  pub yaw_ff : F32

-- The gains of a `Px4Pids`, and its fingerprint of 64 bits.
pub record Library (F32 : Type 0) : Type 1 where
  pub Px4Pids : Type 0
  pub gains : Px4Pids → Px4PidsView F32
  pub fingerprint : Px4Pids → ℕ

-- The exclusive or of the lowest bits.
unfoldable pub xor_bits : ℕ → ℕ → ℕ → ℕ
xor_bits zero a b = 0
xor_bits (suc w) a b = (a + b) % 2 + 2 * xor_bits w (a / 2) (b / 2)

pub data PushError : Type 0 where
  tx_disconnected not_verified : String → PushError

pub data Attempted : Type 0 where
  confirmed unconfirmed lost : Attempted

module _ (e : Env) (l : Library e.F32) where
  open e use {F32, to_bits, of_nat, try_send, param_values}
  open l use {Px4Pids, gains, fingerprint}

  pub record LastVerifiedParams : Type 0 where
    pub pids : Px4Pids
    pub hover_cmd : F32
    pub thr_min : F32
    pub can_hover : Bool

  -- The caches, and whether each channel to the flight controller exists.
  pub record PushState : Type 0 where
    pub has_mav_tx : Bool
    pub has_param_values : Bool
    pub last_pid_fingerprint : Option ℕ
    pub last_verified_params : Option LastVerifiedParams

  unfoldable pub push_fingerprint : LastVerifiedParams → ℕ
  push_fingerprint p =
      xor_bits 64 (xor_bits 64 (fingerprint p.pids) (to_bits p.hover_cmd * 2 ^ 32 % 2 ^ 64))
        (to_bits p.thr_min * 2 ^ 16 % 2 ^ 64)

  unfoldable pub params_of : LastVerifiedParams → List (Setting F32)
  params_of p =
      let g = gains p.pids in
      (real_param "MC_ROLLRATE_P" g.roll_p
        ∷ real_param "MC_ROLLRATE_I" g.roll_i
        ∷ real_param "MC_ROLLRATE_D" g.roll_d
        ∷ real_param "MC_ROLLRATE_FF" g.roll_ff
        ∷ real_param "MC_PITCHRATE_P" g.pitch_p
        ∷ real_param "MC_PITCHRATE_I" g.pitch_i
        ∷ real_param "MC_PITCHRATE_D" g.pitch_d
        ∷ real_param "MC_PITCHRATE_FF" g.pitch_ff
        ∷ real_param "MC_YAWRATE_P" g.yaw_p
        ∷ real_param "MC_YAWRATE_I" g.yaw_i
        ∷ real_param "MC_YAWRATE_D" g.yaw_d
        ∷ real_param "MC_YAWRATE_FF" g.yaw_ff
        ∷ real_param "THR_MDL_FAC" (of_nat 1)
        ∷ real_param "MPC_THR_MIN" p.thr_min
        ∷ real_param "CAL_ACC0_XOFF" (of_nat 0)
        ∷ real_param "CAL_ACC0_YOFF" (of_nat 0)
        ∷ real_param "CAL_ACC0_ZOFF" (of_nat 0)
        ∷ real_param "CAL_GYRO0_XOFF" (of_nat 0)
        ∷ real_param "CAL_GYRO0_YOFF" (of_nat 0)
        ∷ real_param "CAL_GYRO0_ZOFF" (of_nat 0)
        ∷ [])
      ++ (if p.can_hover then real_param "MPC_THR_HOVER" p.hover_cmd ∷ [] else [])

  -- An attempt after the first starts with a new subscription.
  abbrev pub again : ℕ → List (Effect F32) → List (Effect F32)
  again zero h = h
  again (suc n) h = drained ∷ h

  -- The attempts that are left for one parameter.
  unfoldable pub push_param : ℕ → Setting F32 → List (Effect F32) → List (Effect F32) × Attempted
  push_param zero s h = (h, unconfirmed)
  push_param (suc n) s h = elim (try_send h (param_set s)) [
    | full ↦ push_param n s (again n (slept 50 ∷ tried (param_set s) full ∷ h))
    | disconnected ↦ (tried (param_set s) disconnected ∷ h, lost)
    | sent ↦ elim (acked e s (param_values (tried (param_set s) sent ∷ h))) [
      | true ↦ (tried (param_set s) sent ∷ h, confirmed)
      | false ↦ push_param n s (again n (tried (param_set s) sent ∷ h))
    ]
  ]

  abbrev pub name_of : Setting F32 → String
  name_of (int_param name value) = name
  name_of (real_param name value) = name

  -- The loop over the parameters.
  unfoldable pub push_params :
      List (Setting F32) → ℕ → List (Effect F32) → List (Effect F32) × Result PushError ℕ
  push_params [] verified h = (h, ok verified)
  push_params (s ∷ rest) verified h =
      let start : List (Effect F32) = drained ∷ h in
      let (h2, attempted) = push_param param_retry_count s start in
      elim attempted [
        | confirmed ↦ push_params rest (verified + 1) h2
        | unconfirmed ↦ (h2, err (not_verified (name_of s)))
        | lost ↦ (h2, err (tx_disconnected (name_of s)))
      ]

  abbrev pub Pushed : Type 0
  Pushed = List (Effect F32) × PushState × Result PushError (Option (Px4PidsView F32) × ℕ)

  -- After the loop: the caches, then the save, whose outcome is not looked at.
  abbrev pub cached :
      PushState → LastVerifiedParams → List (Effect F32) × Result PushError ℕ → Pushed
  cached b p (h, err why) = (h, b, err why)
  cached b p (h, ok verified) = (
    tried param_save (try_send h param_save) ∷ h,
    record b { last_pid_fingerprint = some (push_fingerprint p); last_verified_params = some p },
    ok (some (gains p.pids), verified),
  )

  -- `*cache == Some(fp)`.
  abbrev pub is_cached : Option ℕ → ℕ → Bool
  is_cached none fp = false
  is_cached (some known) fp = known == fp

  unfoldable pub push_pids_and_verify : LastVerifiedParams → PushState → List (Effect F32) → Pushed
  push_pids_and_verify p b h =
      if not b.has_mav_tx || not b.has_param_values
      then (h, b, ok (none, 0))
      else if is_cached b.last_pid_fingerprint (push_fingerprint p)
      then (h, b, ok (none, 0))
      else cached b p (push_params (params_of p) 0 h)

  unfoldable pub invalidate_pid_fingerprint : PushState → PushState
  invalidate_pid_fingerprint b = record b { last_pid_fingerprint = none }
