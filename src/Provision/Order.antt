-- ===== src/Provision/Order.antt =====
-- The order of the effects of `apply` and `restore`: reboots against saves and pauses.
use Prim.Native.String.{String}
use hitl_daemon.Base.{
  ℕ, zero, suc, ◌+◌, leb, ◌≡◌, refl, ◌∙◌, Bool, true, false, ◌&&◌, none, List, [], ◌∷◌, map, arith,
}
use hitl_daemon.Provision.{
  Setting, Message, param_set, param_save, param_request_read, sent, full, Phase, writing, applying,
  rebooting, reconnecting, verifying, SnapshotParam, Effect, tried, drained, slept, told_apply,
  told_restore, captured, asked_nsh, Env, send_attempts, send_with_backpressure,
}
use hitl_daemon.Provision.Cycle.{
  push_attempts, push_all, poll_reconnect, wait_for_reconnect, verify_attempts, save_and_reboot,
  apply_once, provisioned,
}
use hitl_daemon.Provision.Handler.{provision}
use hitl_daemon.Provision.Reads.{read_attempts, read_params_with}
use hitl_daemon.Provision.Restore.{
  restore_attempts, restore_all, setting_of, verify_restore, write_back,
}

-- Whether the last thing done was a save that the queue took.
abbrev pub saved : {F32 : Type 0} → List (Effect F32) → Bool
saved h = elim h [ tried param_save sent ∷ _ ↦ true | _ ↦ false ]

-- Whether, broadcasts aside, the last thing done was to wait 2 s after such a save.
abbrev pub settled : {F32 : Type 0} → List (Effect F32) → Bool
settled [] = false
settled (told_apply p ∷ h) = settled h
settled (told_restore p ∷ h) = settled h
settled (slept n ∷ h) = leb 2000 n && saved h
settled (tried m o ∷ h) = false
settled (drained ∷ h) = false
settled (captured b ps ∷ h) = false
settled (asked_nsh ∷ h) = false

-- Whether every reboot of the history came right after a save and its pause.
abbrev pub safe : {F32 : Type 0} → List (Effect F32) → Bool
safe [] = true
safe (asked_nsh ∷ h) = settled h && safe h
safe (tried m o ∷ h) = safe h
safe (drained ∷ h) = safe h
safe (slept n ∷ h) = safe h
safe (told_apply p ∷ h) = safe h
safe (told_restore p ∷ h) = safe h
safe (captured b ps ∷ h) = safe h

module _ (e : Env) where
  open e use {F32}

  send_attempts-safe :
      (n : ℕ) (m : Message F32) (h : List (Effect F32)) → safe (send_attempts e n m h).0 ≡ safe h
  unfolding send_attempts
  send_attempts-safe zero m h = refl
  send_attempts-safe (suc n) m h =
      ground (arith, send_attempts-safe n m (slept 25 ∷ tried m full ∷ h))

  send_attempts-saved :
      (n : ℕ) (h : List (Effect F32))
      → (send_attempts e n param_save h).1 ≡ none
      → saved (send_attempts e n param_save h).0 ≡ true
  unfolding send_attempts
  send_attempts-saved zero h q = ground arith
  send_attempts-saved (suc n) h q =
      ground (arith, send_attempts-saved n (slept 25 ∷ tried param_save full ∷ h))

  push_attempts-safe :
      (n : ℕ) (s : Setting F32) (h : List (Effect F32)) → safe (push_attempts e n s h).0 ≡ safe h
  unfolding push_attempts
  push_attempts-safe zero s h = refl
  push_attempts-safe (suc n) s h = ground (
    arith,
    push_attempts-safe n s (slept 50 ∷ tried (param_set s) full ∷ h),
    push_attempts-safe n s (drained ∷ tried (param_set s) sent ∷ h),
  )

  push_all-safe :
      (ss : List (Setting F32)) (h : List (Effect F32)) → safe (push_all e ss h).0 ≡ safe h
  unfolding push_all
  push_all-safe [] h = refl
  push_all-safe (s ∷ ss) h =
      let a = push_attempts-safe 3 s h in
      let b = push_all-safe ss (push_attempts e 3 s h).0 in ground arith

  poll_reconnect-safe :
      (n deadline seen start : ℕ) (c : Bool) (h : List (Effect F32))
      → safe (poll_reconnect e n deadline seen start c h).0 ≡ safe h
  unfolding poll_reconnect
  poll_reconnect-safe zero deadline seen start c h = refl
  poll_reconnect-safe (suc n) deadline seen start c h = ground (
    arith,
    poll_reconnect-safe n deadline (e.heartbeat_status h).0 (e.now h) false (slept 250 ∷ h),
    poll_reconnect-safe n deadline seen start true (slept 250 ∷ h),
    poll_reconnect-safe n deadline seen start c (slept 250 ∷ h),
  )

  verify_attempts-safe : (n : ℕ) (h : List (Effect F32)) → safe (verify_attempts e n h).0 ≡ safe h
  unfolding verify_attempts
  verify_attempts-safe zero h = refl
  verify_attempts-safe (suc n) h = ground (arith, verify_attempts-safe n (slept 500 ∷ h))

  -- A broadcast that the two tests pass over.
  Tell : (Phase → Effect F32) → Type 0
  Tell tell =
      ((p : Phase) (h : List (Effect F32)) → safe (tell p ∷ h) ≡ safe h)
      × ((p : Phase) (h : List (Effect F32)) → settled (tell p ∷ h) ≡ settled h)

  save_and_reboot-safe :
      (tell : Phase → Effect F32) (h : List (Effect F32))
      → Tell tell
      → safe h ≡ true
      → safe (save_and_reboot e tell h).0 ≡ true
  unfolding save_and_reboot send_with_backpressure wait_for_reconnect Tell
  save_and_reboot-safe tell h (f, g) q =
      let k = (send_attempts e 40 param_save h).0 in
      let a = send_attempts-safe 40 param_save h in
      let b = send_attempts-saved 40 h in
      let waited = slept 2000 ∷ k in
      let asked : List (Effect F32) = tell reconnecting ∷ asked_nsh ∷ tell rebooting ∷ waited in
      let c =
        poll_reconnect-safe 241 (e.now asked + 60000) (e.heartbeat_status waited).0 (e.now asked)
          false asked in
      let d = f reconnecting (asked_nsh ∷ tell rebooting ∷ waited) in
      let x = f rebooting waited in let y = g rebooting waited in ground arith

  apply_once-safe : (h : List (Effect F32)) → safe h ≡ true → safe (apply_once e h).0 ≡ true
  unfolding apply_once Tell
  apply_once-safe h q =
      let start : List (Effect F32) = told_apply applying ∷ h in
      let k = (push_all e (provisioned e) start).0 in
      let a = push_all-safe (provisioned e) start in
      let b = save_and_reboot-safe told_apply k ((λ p j. refl), (λ p j. refl)) (a ∙ q) in
      let c = verify_attempts-safe 3 (told_apply verifying ∷ (save_and_reboot e told_apply k).0) in
      ground arith

  -- If every reboot of the history came directly after an accepted PARAM_SAVE and a 2 s pause, the
  -- same holds after provisioning with any number of attempts.
  pub provision-safe :
      (n : ℕ) (h : List (Effect F32)) → safe h ≡ true → safe (provision e n h).0 ≡ true
  unfolding provision
  provision-safe zero h q = q
  provision-safe (suc n) h q =
      let a = apply_once-safe h q in let b = provision-safe n (apply_once e h).0 a in ground arith

  restore_attempts-safe :
      (n : ℕ) (s : Setting F32) (h : List (Effect F32)) → safe (restore_attempts e n s h).0 ≡ safe h
  unfolding restore_attempts send_with_backpressure
  restore_attempts-safe zero s h = refl
  restore_attempts-safe (suc n) s h =
      let k = (send_attempts e 40 (param_set s) h).0 in
      let a = send_attempts-safe 40 (param_set s) h in
      let b = restore_attempts-safe n s (drained ∷ k) in ground arith

  restore_all-safe :
      (xs : List (SnapshotParam F32)) (h : List (Effect F32)) → safe (restore_all e xs h).0 ≡ safe h
  unfolding restore_all
  restore_all-safe [] h = refl
  restore_all-safe (x ∷ xs) h =
      let a = restore_attempts-safe 3 (setting_of e x) h in
      let b = restore_all-safe xs (restore_attempts e 3 (setting_of e x) h).0 in ground arith

  read_attempts-safe :
      (n : ℕ) (name : String) (h : List (Effect F32)) → safe (read_attempts e n name h).0 ≡ safe h
  unfolding read_attempts
  read_attempts-safe zero name h = refl
  read_attempts-safe (suc n) name h = ground (
    arith,
    read_attempts-safe n name (slept 50 ∷ tried (param_request_read name) full ∷ h),
    read_attempts-safe n name (drained ∷ tried (param_request_read name) sent ∷ h),
  )

  read_params_with-safe :
      (names : List String) (h : List (Effect F32)) → safe (read_params_with e names h).0 ≡ safe h
  unfolding read_params_with
  read_params_with-safe [] h = refl
  read_params_with-safe (name ∷ rest) h =
      let a = read_attempts-safe 3 name h in
      let b = read_params_with-safe rest (read_attempts e 3 name h).0 in ground arith

  verify_restore-safe :
      (xs : List (SnapshotParam F32)) (h : List (Effect F32))
      → safe (verify_restore e xs h).0 ≡ safe h
  unfolding verify_restore
  verify_restore-safe xs h =
      let a =
        read_params_with-safe (map (λ (x : SnapshotParam F32). x.name) xs)
          (told_restore verifying ∷ h) in
      ground arith

  -- If every reboot of the history came directly after an accepted PARAM_SAVE and a 2 s pause, the
  -- same holds after the writes, the reboot and the read-back of a restore.
  pub write_back-safe :
      (xs : List (SnapshotParam F32)) (h : List (Effect F32))
      → safe h ≡ true
      → safe (write_back e xs h).0 ≡ true
  unfolding write_back Tell
  write_back-safe xs h q =
      let k = (restore_all e xs (told_restore writing ∷ h)).0 in
      let a = restore_all-safe xs (told_restore writing ∷ h) in
      let b = save_and_reboot-safe told_restore k ((λ p j. refl), (λ p j. refl)) (a ∙ q) in
      let c = verify_restore-safe xs (save_and_reboot e told_restore k).0 in ground arith
