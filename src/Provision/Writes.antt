-- ===== src/Provision/Writes.antt =====
-- The number of writes, saves and reboots of `apply`.
use Prim.Native.String.{String}
use hitl_daemon.Base.{
  ℕ, zero, suc, ◌+◌, ◌*◌, ◌≡◌, ◌⊎◌, inl, inr, refl, Bool, true, false, Option, none, some, List, [],
  ◌∷◌, map, length, arith,
}
use hitl_daemon.Provision.{
  Setting, param_set, param_save, param_request_read, sent, full, ParamValue, capturing, applying,
  rebooting, reconnecting, verifying, Effect, tried, drained, slept, told_apply, asked_nsh, Env,
  send_attempts, send_with_backpressure,
}
use hitl_daemon.Provision.Counts.{Within, Within-refl, Within-more, Within-told, Within-after}
use hitl_daemon.Provision.Cycle.{
  push_attempts, push_all, poll_reconnect, wait_for_reconnect, verify_attempts, save_and_reboot,
  apply_once, provisioned, support_params_i32, support_params_f32,
}
use hitl_daemon.Provision.Handler.{
  PreflightHandler, CaptureError, hand_off, capture_board, capture_and_confirm_snapshot, param_name,
  provision, apply_confirmed, apply_guarded, apply_inner,
}
use hitl_daemon.Provision.Reads.{read_attempts, read_params_with}

module _ (e : Env) where
  open e use {F32}

  pub read_attempts-Within :
      (n : ℕ) (name : String) (h : List (Effect F32)) → Within 0 0 0 h (read_attempts e n name h).0
  unfolding read_attempts Within
  read_attempts-Within zero name h = (omega arith, omega arith, omega arith)
  read_attempts-Within (suc n) name h = ground (
    arith,
    read_attempts-Within n name (slept 50 ∷ tried (param_request_read name) full ∷ h),
    read_attempts-Within n name (drained ∷ tried (param_request_read name) sent ∷ h),
  )

  pub push_attempts-Within :
      (n : ℕ) (s : Setting F32) (h : List (Effect F32)) → Within n 0 0 h (push_attempts e n s h).0
  unfolding push_attempts Within
  push_attempts-Within zero s h = (omega arith, omega arith, omega arith)
  push_attempts-Within (suc n) s h = ground (
    arith,
    push_attempts-Within n s (slept 50 ∷ tried (param_set s) full ∷ h),
    push_attempts-Within n s (drained ∷ tried (param_set s) sent ∷ h),
  )

  pub push_all-Within :
      (ss : List (Setting F32)) (h : List (Effect F32))
      → Within (length ss * 3) 0 0 h (push_all e ss h).0
  unfolding push_all Within
  push_all-Within [] h = (omega arith, omega arith, omega arith)
  push_all-Within (s ∷ ss) h =
      let (a, b, c) = push_attempts-Within 3 s h in
      let (a2, b2, c2) = push_all-Within ss (push_attempts e 3 s h).0 in ground arith

  pub send_attempts-Within :
      (n : ℕ) (h : List (Effect F32)) → Within 0 1 0 h (send_attempts e n param_save h).0
  unfolding send_attempts Within
  send_attempts-Within zero h = (omega arith, omega arith, omega arith)
  send_attempts-Within (suc n) h =
      ground (arith, send_attempts-Within n (slept 25 ∷ tried param_save full ∷ h))

  pub poll_reconnect-Within :
      (n deadline seen start : ℕ) (c : Bool) (h : List (Effect F32))
      → Within 0 0 0 h (poll_reconnect e n deadline seen start c h).0
  unfolding poll_reconnect Within
  poll_reconnect-Within zero deadline seen start c h = (omega arith, omega arith, omega arith)
  poll_reconnect-Within (suc n) deadline seen start c h = ground (
    arith,
    poll_reconnect-Within n deadline (e.heartbeat_status h).0 (e.now h) false (slept 250 ∷ h),
    poll_reconnect-Within n deadline seen start true (slept 250 ∷ h),
    poll_reconnect-Within n deadline seen start c (slept 250 ∷ h),
  )

  verify_attempts-Within :
      (n : ℕ) (h : List (Effect F32)) → Within 0 0 0 h (verify_attempts e n h).0
  unfolding verify_attempts Within
  verify_attempts-Within zero h = (omega arith, omega arith, omega arith)
  verify_attempts-Within (suc n) h = ground (arith, verify_attempts-Within n (slept 500 ∷ h))

  save_and_reboot-Within :
      (h : List (Effect F32)) → Within 0 1 1 h (save_and_reboot e told_apply h).0
  unfolding save_and_reboot send_with_backpressure wait_for_reconnect Within
  save_and_reboot-Within h =
      let (a, b, c) = send_attempts-Within 40 h in
      let settled = slept 2000 ∷ (send_attempts e 40 param_save h).0 in
      let asked : List (Effect F32) =
        told_apply reconnecting ∷ asked_nsh ∷ told_apply rebooting ∷ settled in
      let (a2, b2, c2) =
        poll_reconnect-Within 241 (e.now asked + 60000) (e.heartbeat_status settled).0 (e.now asked)
          false asked in
      ground arith

  apply_once-Within : (h : List (Effect F32)) → Within 63 1 1 h (apply_once e h).0
  unfolding apply_once provisioned support_params_i32 support_params_f32 Within
  apply_once-Within h =
      let start : List (Effect F32) = told_apply applying ∷ h in
      let (a, b, c) = push_all-Within (provisioned e) start in
      let pushed = (push_all e (provisioned e) start).0 in
      let (a2, b2, c2) = save_and_reboot-Within pushed in
      let (a3, b3, c3) =
        verify_attempts-Within 3 (told_apply verifying ∷ (save_and_reboot e told_apply pushed).0) in
      ground arith

  provision-Within : (n : ℕ) (h : List (Effect F32)) → Within (n * 63) n n h (provision e n h).0
  unfolding provision Within
  provision-Within zero h = (omega arith, omega arith, omega arith)
  provision-Within (suc n) h =
      let (a, b, c) = apply_once-Within h in
      let (a2, b2, c2) = provision-Within n (apply_once e h).0 in ground arith

  read_params_with-Within :
      (names : List String) (h : List (Effect F32)) → Within 0 0 0 h (read_params_with e names h).0
  unfolding read_params_with Within
  read_params_with-Within [] h = (omega arith, omega arith, omega arith)
  read_params_with-Within (name ∷ rest) h =
      let (a, b, c) = read_attempts-Within 3 name h in
      let (a2, b2, c2) = read_params_with-Within rest (read_attempts e 3 name h).0 in ground arith

  hand_off-Within :
      (p : PreflightHandler e) (board : String) (values : List (ParamValue F32))
      (h : List (Effect F32))
      → Within 0 0 0 h (hand_off e p board values h).0.1
  unfolding hand_off Within
  hand_off-Within p board values h = ground arith

  capture_board-Within :
      (id : Option String) (p : PreflightHandler e) (names : List String) (h : List (Effect F32))
      → Within 0 0 0 h (capture_board e id p names h).0.1
  unfolding capture_board Within
  capture_board-Within none p names h = (omega arith, omega arith, omega arith)
  capture_board-Within (some board) p names h =
      let (a, b, c) = read_params_with-Within names h in
      let (a2, b2, c2) =
        hand_off-Within p board (read_params_with e names h).1.0 (read_params_with e names h).0 in
      ground arith

  capture-Within :
      (p : PreflightHandler e) (h : List (Effect F32))
      → Within 0 0 0 h (capture_and_confirm_snapshot e p h).0.1
  unfolding capture_and_confirm_snapshot
  capture-Within p h = capture_board-Within p.board_identity p (map param_name (provisioned e)) h

  confirmed-Within :
      (r : Option CaptureError) (p : PreflightHandler e) (h : List (Effect F32))
      → (r ≡ none ⊎ Within 0 0 0 h (apply_confirmed e r p h).0.1)
        × Within 126 2 2 h (apply_confirmed e r p h).0.1
  unfolding apply_confirmed Within
  confirmed-Within none p h = (inl refl, provision-Within 2 h)
  confirmed-Within (some c) p h =
      (inr (omega arith, omega arith, omega arith), (omega arith, omega arith, omega arith))

  guarded-Within :
      (b c : Bool) (p : PreflightHandler e) (h : List (Effect F32))
      → (((b ≡ false)
            × (c ≡ true)
            × ((capture_and_confirm_snapshot e p (told_apply capturing ∷ h)).1 ≡ none))
          ⊎ Within 0 0 0 h (apply_guarded e b c p h).0.1)
        × Within 126 2 2 h (apply_guarded e b c p h).0.1
  unfolding apply_guarded
  guarded-Within true c p h = (inr (Within-refl h), Within-more 126 2 2 h h (Within-refl h))
  guarded-Within false false p h = (inr (Within-refl h), Within-more 126 2 2 h h (Within-refl h))
  guarded-Within false true p h =
      let ((q, k), r) = capture_and_confirm_snapshot e p (told_apply capturing ∷ h) in
      let w = Within-told 0 0 0 capturing h k (capture-Within p (told_apply capturing ∷ h)) in
      let (quiet, bound) = confirmed-Within r q k in
      let end = (apply_confirmed e r q k).0.1 in
      (
        elim quiet [ inl x ↦ inl (refl, refl, x) | inr x ↦ inr (Within-after 0 0 0 h k end w x) ],
        Within-after 126 2 2 h k end w bound,
      )

  -- Whatever the link, the board and the browser answer, an apply either found no operation
  -- running, a board there and the restore point confirmed, or it put no parameter, no save and no
  -- reboot on the board's queues.
  pub apply_inner-nothing_written :
      (p : PreflightHandler e) (h : List (Effect F32))
      → ((p.applying ≡ false)
          × (p.connected ≡ true)
          × ((capture_and_confirm_snapshot e p (told_apply capturing ∷ h)).1 ≡ none))
        ⊎ Within 0 0 0 h (apply_inner e p h).0.1
  unfolding apply_inner
  apply_inner-nothing_written p h = (guarded-Within p.applying p.connected p h).0

  -- However it ends, one apply puts at most 126 parameter writes, two saves and two reboots on the
  -- board's queues.
  pub apply_inner-bounded :
      (p : PreflightHandler e) (h : List (Effect F32)) → Within 126 2 2 h (apply_inner e p h).0.1
  unfolding apply_inner
  apply_inner-bounded p h = (guarded-Within p.applying p.connected p h).1
