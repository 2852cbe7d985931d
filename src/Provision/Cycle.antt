-- ===== src/Provision/Cycle.antt =====
-- crates/websocket/src/preflight.rs: the parameter writes and the save-reboot-verify cycle.
use hitl_daemon.Base.{
  ℕ, zero, suc, ◌+◌, ltb, leb, Bool, true, false, not, ◌&&◌, Option, none, some, List, [], ◌∷◌,
  ◌++◌,
}
use hitl_daemon.Provision.{
  Setting, int_param, real_param, param_set, param_save, sent, full, disconnected, Phase, applying,
  rebooting, reconnecting, verifying, Effect, tried, drained, slept, told_apply, asked_nsh, Env,
  acked, send_with_backpressure,
}

abbrev pub param_retry_count : ℕ
param_retry_count = 3

abbrev pub param_save_settle_delay : ℕ
param_save_settle_delay = 2000

abbrev pub reconnect_timeout : ℕ
reconnect_timeout = 60000

abbrev pub reconnect_poll_interval : ℕ
reconnect_poll_interval = 250

abbrev pub quiet_period : ℕ
quiet_period = 2000

-- What `format!` makes a message of.
pub data Cause : Type 0 where
  tx_disconnected unverified : Cause
  not_saved reboot_not_sent no_reconnect no_effect : Cause

pub data ApplyFailure : Type 0 where
  fatal retryable : Cause → ApplyFailure

module _ (e : Env) where
  open e use {F32, of_nat, try_send, param_values, nsh_accepts, heartbeat_status, now}

  -- The attempts that are left to write one parameter and see it confirmed.
  unfoldable pub push_attempts :
      ℕ → Setting F32 → List (Effect F32) → List (Effect F32) × Option ApplyFailure
  push_attempts zero s h = (h, some (fatal unverified))
  push_attempts (suc n) s h = elim (try_send h (param_set s)) [
    | full ↦ push_attempts n s (slept 50 ∷ tried (param_set s) full ∷ h)
    | disconnected ↦ (tried (param_set s) disconnected ∷ h, some (fatal tx_disconnected))
    | sent ↦ elim (acked e s (param_values (tried (param_set s) sent ∷ h))) [
      | true ↦ (drained ∷ tried (param_set s) sent ∷ h, none)
      | false ↦ push_attempts n s (drained ∷ tried (param_set s) sent ∷ h)
    ]
  ]

  unfoldable pub push_all :
      List (Setting F32) → List (Effect F32) → List (Effect F32) × Option ApplyFailure
  unfolding push_attempts
  push_all [] h = (h, none)
  push_all (s ∷ rest) h =
      let (h2, failure) = push_attempts param_retry_count s h in
      elim failure [ some f ↦ (h2, some f) | none ↦ push_all rest h2 ]

  -- The names and values of a provisioned board.
  unfoldable pub support_params_i32 : List (Setting F32)
  support_params_i32 =
      int_param "SYS_HAS_BARO" 1
      ∷ int_param "CBRK_SUPPLY_CHK" 894281
      ∷ int_param "COM_ARM_HFLT_CHK" 0
      ∷ int_param "COM_ARM_MAG_ANG" 180
      ∷ int_param "COM_ARM_MAG_STR" 0
      ∷ int_param "COM_ARM_SDCARD" 0
      ∷ int_param "EKF2_GPS_CHECK" 0
      ∷ int_param "EKF2_MAG_CHECK" 0
      ∷ int_param "EKF2_MULTI_IMU" 1
      ∷ int_param "GPS_1_CONFIG" 0
      ∷ int_param "HIL_ACT_FUNC1" 101
      ∷ int_param "HIL_ACT_FUNC2" 102
      ∷ int_param "HIL_ACT_FUNC3" 103
      ∷ int_param "HIL_ACT_FUNC4" 104
      ∷ int_param "SENS_IMU_MODE" 0
      ∷ int_param "SENS_MAG_AUTOCAL" 0
      ∷ []

  unfoldable pub support_params_f32 : List (Setting F32)
  support_params_f32 =
      real_param "EKF2_ABL_LIM" (of_nat 0)
      ∷ real_param "EKF2_REQ_HDRIFT" (of_nat 3)
      ∷ real_param "EKF2_REQ_VDRIFT" (of_nat 3)
      ∷ []

  unfoldable pub provisioned : List (Setting F32)
  unfolding support_params_i32 support_params_f32
  provisioned =
      int_param "SYS_HITL" 1
      ∷ int_param "SYS_AUTOSTART" 4001
      ∷ (support_params_i32 ++ support_params_f32)

  -- The poll loop on fuel; `deadline` and `quiet_start` are instants.
  unfoldable pub poll_reconnect :
      ℕ → ℕ → ℕ → ℕ → Bool → List (Effect F32) → List (Effect F32) × Bool
  poll_reconnect zero deadline last_seen quiet_start confirmed h = (h, false)
  poll_reconnect (suc n) deadline last_seen quiet_start confirmed h =
      let next : ℕ → ℕ → Bool → List (Effect F32) × Bool = λ seen start quiet.
        elim (leb deadline (now h)) [
          | true ↦ (h, false)
          | false ↦ poll_reconnect n deadline seen start quiet (slept reconnect_poll_interval ∷ h)
        ] in
      elim (ltb last_seen (heartbeat_status h).0) [
        | true ↦ elim confirmed [
          | true ↦ (h, true)
          | false ↦ next (heartbeat_status h).0 (now h) false
        ]
        | false ↦ elim (not confirmed && leb (quiet_start + quiet_period) (now h)) [
          | true ↦ next last_seen quiet_start true
          | false ↦ next last_seen quiet_start confirmed
        ]
      ]

  -- 60 s of 250 ms polls, the first and the last one included.
  abbrev pub reconnect_fuel : ℕ
  reconnect_fuel = 241

  unfoldable pub wait_for_reconnect : ℕ → List (Effect F32) → List (Effect F32) × Bool
  unfolding poll_reconnect
  wait_for_reconnect baseline h =
      poll_reconnect reconnect_fuel (now h + reconnect_timeout) baseline (now h) false h

  -- The re-reads of the two flags that are left.
  unfoldable pub verify_attempts : ℕ → List (Effect F32) → List (Effect F32) × Bool
  verify_attempts zero h = (h, false)
  verify_attempts (suc n) h = elim ((heartbeat_status h).1 && (heartbeat_status h).2) [
    | true ↦ (h, true)
    | false ↦ elim n [ zero ↦ (h, false) | suc m ↦ verify_attempts n (slept 500 ∷ h) ]
  ]

  -- PARAM_SAVE, the pause for the flash commit, the reboot and the wait for the board, with the
  -- broadcast of the operation that runs it.
  unfoldable pub save_and_reboot :
      (Phase → Effect F32) → List (Effect F32) → List (Effect F32) × Option Cause
  unfolding wait_for_reconnect
  save_and_reboot tell h =
      let (h2, failure) = send_with_backpressure e param_save h in
      elim failure [
        | some _ ↦ (h2, some not_saved)
        | none ↦
            let settled = slept param_save_settle_delay ∷ h2 in
            elim (nsh_accepts (tell rebooting ∷ settled)) [
              | false ↦ (tell rebooting ∷ settled, some reboot_not_sent)
              | true ↦
                  let (h3, back) =
                    wait_for_reconnect (heartbeat_status settled).0
                      (tell reconnecting ∷ asked_nsh ∷ tell rebooting ∷ settled) in
                  elim back [ false ↦ (h3, some no_reconnect) | true ↦ (h3, none) ]
            ]
      ]

  unfoldable pub apply_once : List (Effect F32) → List (Effect F32) × Option ApplyFailure
  unfolding push_all save_and_reboot verify_attempts provisioned
  apply_once h =
      let (h2, failure) = push_all provisioned (told_apply applying ∷ h) in
      elim failure [
        | some f ↦ (h2, some f)
        | none ↦
            let (h3, cause) = save_and_reboot told_apply h2 in
            elim cause [
              | some c ↦ (h3, some (fatal c))
              | none ↦
                  let (h4, verified) = verify_attempts 3 (told_apply verifying ∷ h3) in
                  elim verified [ true ↦ (h4, none) | false ↦ (h4, some (retryable no_effect)) ]
            ]
      ]
