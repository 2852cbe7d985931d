-- ===== src/Provision/Outcomes.antt =====
-- What a reported outcome of `apply` says of the board and the browser, and the cooldown behind it.
use Prim.Native.String.{String}
use text.Mathlib.TextEquality.{eq_iff}
use hitl_daemon.Base.{
  ℕ, zero, suc, ◌+◌, ◌-◌, ◌<◌, ◌≡◌, ◌≢◌, ◌⊎◌, refl, ap, Bool, true, false, Option, none, some, List,
  [], ◌∷◌, map, arith,
}
use hitl_daemon.Provision.{
  capturing, applying, verifying, ParamValue, Effect, slept, drained, told_apply, captured, Env,
  Delivery, delivered, lagged, closed, SnapshotStored,
}
use hitl_daemon.Provision.Cycle.{
  push_all, verify_attempts, save_and_reboot, apply_once, provisioned,
}
use hitl_daemon.Provision.Handler.{
  PreflightHandler, CaptureError, unreadable, snapshot_param, param_name, apply_confirmed,
  apply_guarded, settling, cycle_cooldown, await_snapshot_ack, provision, capture_board, hand_off,
  capture_and_confirm_snapshot, apply, apply_inner, mark_cycle_finished, cooldown_remaining,
}
use hitl_daemon.Provision.Answers.{Genuine, read_params_with-Genuine}
use hitl_daemon.Provision.ReadBack.{Has, read_params_with-Has}
use hitl_daemon.Provision.Reads.{read_params_with}
use hitl_daemon.Provision.Restore
use hitl_daemon.Provision.Restore.{
  RestoreSnapshot, RestoreMismatch, setting_of, find_value, mismatches, verify_restore, write_back,
  restore, restore_inner,
}

module _ (e : Env) where
  open e use {F32}

  verify_attempts-flags :
      (n : ℕ) (h : List (Effect F32))
      → (verify_attempts e n h).1 ≡ true
      → ((e.heartbeat_status (verify_attempts e n h).0).1 ≡ true)
        × ((e.heartbeat_status (verify_attempts e n h).0).2 ≡ true)
  unfolding verify_attempts
  verify_attempts-flags zero h q = ground arith
  verify_attempts-flags (suc n) h q = ground (arith, verify_attempts-flags n (slept 500 ∷ h))

  apply_once-verified :
      (h : List (Effect F32))
      → (apply_once e h).1 ≡ none
      → ((e.heartbeat_status (apply_once e h).0).1 ≡ true)
        × ((e.heartbeat_status (apply_once e h).0).2 ≡ true)
  unfolding apply_once
  apply_once-verified h q =
      let k = (push_all e (provisioned e) (told_apply applying ∷ h)).0 in
      let v = verify_attempts-flags 3 (told_apply verifying ∷ (save_and_reboot e told_apply k).0) in
      ground arith

  -- When provisioning reports success, the board's last heartbeat says that it runs in HITL mode
  -- as a quadrotor.
  pub provision-verified :
      (n : ℕ) (h : List (Effect F32))
      → (provision e n h).1 ≡ none
      → ((e.heartbeat_status (provision e n h).0).1 ≡ true)
        × ((e.heartbeat_status (provision e n h).0).2 ≡ true)
  unfolding provision
  provision-verified zero h q = ground arith
  provision-verified (suc n) h q =
      let a = apply_once-verified h in
      let b = provision-verified n (apply_once e h).0 in ground arith

  -- The answers before the first one about this board, which says that it stored the snapshot.
  pub Confirmed : String → List (Delivery SnapshotStored) → Type 0
  Confirmed board [] = ⊥
  Confirmed board (delivered ack ∷ rest) =
      ((ack.board_identity ≡ board) × (ack.stored ≡ true))
      ⊎ ((ack.board_identity ≢ board) × Confirmed board rest)
  Confirmed board (lagged ∷ rest) = Confirmed board rest
  Confirmed board (closed ∷ rest) = ⊥

  pub await_snapshot_ack-Confirmed :
      (board : String) (ds : List (Delivery SnapshotStored))
      → await_snapshot_ack e board ds ≡ none
      → Confirmed board ds
  unfolding await_snapshot_ack Confirmed
  await_snapshot_ack-Confirmed board [] q = ground arith
  await_snapshot_ack-Confirmed board (delivered ack ∷ rest) q =
      let rule = eq_iff ack.board_identity board in
      let ih = await_snapshot_ack-Confirmed board rest in ground arith
  await_snapshot_ack-Confirmed board (lagged ∷ rest) q = await_snapshot_ack-Confirmed board rest q
  await_snapshot_ack-Confirmed board (closed ∷ rest) q = ground arith

  -- The history of this run's capture, from `h`, up to the hand-off of the values that it read.
  abbrev handed_off : String → List (Effect F32) → List (Effect F32)
  handed_off board h =
      let (k, (values, missing)) =
        read_params_with e (map param_name (provisioned e)) (told_apply capturing ∷ h) in
      captured board (map (snapshot_param e) values) ∷ k

  -- This run asked the board for every parameter, has its answers, and handed them off; the
  -- browser's answers after that confirmed that it stored this board's, and the provisioning went on
  -- from there.
  pub RestorePoint : Option String → List (Effect F32) → List (Effect F32) → Type 0
  RestorePoint id h end =
      let names = map param_name (provisioned e) in
      let reads = read_params_with e names (told_apply capturing ∷ h) in
      (board : String) × (id ≡ some board)
      × Has e names reads.1.0
      × Genuine e (told_apply capturing ∷ h) reads.0 reads.1.0
      × Confirmed board (e.acknowledgements (handed_off board h))
      × (end ≡ (provision e 2 (drained ∷ handed_off board h)).0)

  hand_off-Confirmed :
      (p : PreflightHandler e) (board : String) (values : List (ParamValue F32))
      (h : List (Effect F32))
      → (hand_off e p board values h).1 ≡ none
      → Confirmed board (e.acknowledgements (captured board (map (snapshot_param e) values) ∷ h))
        × ((hand_off e p board values h).0.1
            ≡ drained ∷ captured board (map (snapshot_param e) values) ∷ h)
  unfolding hand_off
  hand_off-Confirmed p board values h q =
      let rule =
        await_snapshot_ack-Confirmed board
          (e.acknowledgements (captured board (map (snapshot_param e) values) ∷ h)) in
      ground arith

  -- A capture that is confirmed.
  Captured : Option String → List String → List (Effect F32) → List (Effect F32) → Type 0
  Captured id names h end =
      let (k, (values, missing)) = read_params_with e names h in
      (board : String) × (id ≡ some board)
      × (missing ≡ [])
      × Confirmed board (e.acknowledgements (captured board (map (snapshot_param e) values) ∷ k))
      × (end ≡ drained ∷ captured board (map (snapshot_param e) values) ∷ k)

  -- The hand-off of what was read, when nothing is missing.
  abbrev read_out :
      String
      → PreflightHandler e
      → List (Effect F32) × (List (ParamValue F32) × List String)
      → (PreflightHandler e × List (Effect F32)) × Option CaptureError
  read_out board p (k, (values, missing)) = elim missing [
    | _ ∷ _ ↦ ((p, k), some unreadable)
    | [] ↦ hand_off e p board values k
  ]

  read_out-handed :
      (board : String) (p : PreflightHandler e) (k : List (Effect F32))
      (values : List (ParamValue F32)) (missing : List String)
      → (read_out board p (k, (values, missing))).1 ≡ none
      → (missing ≡ [])
        × Confirmed board (e.acknowledgements (captured board (map (snapshot_param e) values) ∷ k))
        × ((read_out board p (k, (values, missing))).0.1
            ≡ drained ∷ captured board (map (snapshot_param e) values) ∷ k)
  read_out-handed board p k values [] q =
      let (c, d) = hand_off-Confirmed p board values k q in (refl, c, d)
  read_out-handed board p k values (name ∷ names) q = ground arith

  capture_board-Captured :
      (id : Option String) (p : PreflightHandler e) (names : List String) (h : List (Effect F32))
      → (capture_board e id p names h).1 ≡ none
      → Captured id names h (capture_board e id p names h).0.1
  unfolding capture_board Captured
  capture_board-Captured none p names h q = ground arith
  capture_board-Captured (some board) p names h q =
      let reads = read_params_with e names h in
      let (m, c, d) = read_out-handed board p reads.0 reads.1.0 reads.1.1 q in
      (board, refl, m, c, d)

  succeeds_from :
      (p : PreflightHandler e) (h : List (Effect F32))
      (capture : (PreflightHandler e × List (Effect F32)) × Option CaptureError)
      → (capture.1 ≡ none
          → Captured p.board_identity
              (map param_name (provisioned e))
              (told_apply capturing ∷ h)
              capture.0.1)
      → (apply_confirmed e capture.1 capture.0.0 capture.0.1).1 ≡ none
      → RestorePoint p.board_identity h (apply_confirmed e capture.1 capture.0.0 capture.0.1).0.1
        × ((e.heartbeat_status (apply_confirmed e capture.1 capture.0.0 capture.0.1).0.1).1 ≡ true)
        × ((e.heartbeat_status (apply_confirmed e capture.1 capture.0.0 capture.0.1).0.1).2 ≡ true)
  unfolding apply_confirmed Captured RestorePoint
  succeeds_from p h ((q, l), some c) f r = ground arith
  succeeds_from p h ((q, l), none) f r =
      let (board, i, m, c, d) = f refl in
      let (a, b) = provision-verified 2 l r in
      let names = map param_name (provisioned e) in
      (
        (
          board,
          i,
          read_params_with-Has e names (told_apply capturing ∷ h) m,
          read_params_with-Genuine e names (told_apply capturing ∷ h),
          c,
          ap (λ t. (provision e 2 t).0) d,
        ),
        a,
        b,
      )

  guarded-succeeds :
      (b c : Bool) (p : PreflightHandler e) (h : List (Effect F32))
      → (apply_guarded e b c p h).1 ≡ none
      → RestorePoint p.board_identity h (apply_guarded e b c p h).0.1
        × ((e.heartbeat_status (apply_guarded e b c p h).0.1).1 ≡ true)
        × ((e.heartbeat_status (apply_guarded e b c p h).0.1).2 ≡ true)
  unfolding apply_guarded capture_and_confirm_snapshot
  guarded-succeeds true c p h q = ground arith
  guarded-succeeds false false p h q = ground arith
  guarded-succeeds false true p h q =
      succeeds_from p h
        (capture_board e p.board_identity p (map param_name (provisioned e))
          (told_apply capturing ∷ h))
        (capture_board-Captured p.board_identity p (map param_name (provisioned e))
          (told_apply capturing ∷ h))
        q

  -- When apply reports success, the board had an identity, this run had read every parameter, each
  -- value the board's answer to a request of its own, and handed the values off, the browser's
  -- answers after that hand-off confirmed the restore point of that board, what followed is the
  -- provisioning from there, and the last heartbeat shows HITL mode and a quadrotor.
  pub apply_inner-succeeds :
      (p : PreflightHandler e) (h : List (Effect F32))
      → (apply_inner e p h).1 ≡ none
      → RestorePoint p.board_identity h (apply_inner e p h).0.1
        × ((e.heartbeat_status (apply_inner e p h).0.1).1 ≡ true)
        × ((e.heartbeat_status (apply_inner e p h).0.1).2 ≡ true)
  unfolding apply_inner
  apply_inner-succeeds p h q = guarded-succeeds p.applying p.connected p h q

  cooldown_remaining-open :
      (p : PreflightHandler e) (t instant : ℕ)
      → p.last_cycle_finished ≡ some t
      → instant < t + cycle_cooldown
      → cooldown_remaining e p instant ≡ some (cycle_cooldown - (instant - t))
  unfolding cooldown_remaining
  cooldown_remaining-open p t instant q less = rw q (ground arith)

  apply-stamps :
      (p : PreflightHandler e) (h : List (Effect F32))
      → (apply e p h).1 ≢ some settling
      → (apply e p h).0.0.last_cycle_finished ≡ some (e.now (apply e p h).0.1)
  unfolding apply mark_cycle_finished
  apply-stamps p h n = ground arith

  turned_away :
      (p : PreflightHandler e) (t : ℕ) (l : List (Effect F32)) (request : RestoreSnapshot e)
      → p.last_cycle_finished ≡ some t
      → e.now l < t + cycle_cooldown
      → (apply e p l ≡ ((p, l), some settling))
        × (restore e p request l ≡ ((p, l), some Restore.settling))
  unfolding apply restore
  turned_away p t l request q less =
      let c = cooldown_remaining-open p t (e.now l) q less in
      (rw (c, apply) refl, rw (c, restore) refl)

  -- After an apply that was not turned away at the cooldown, any apply or restore that starts less
  -- than 15 s after its end is turned away, with no effect on the board or the handler.
  pub apply-settling :
      (p : PreflightHandler e) (h l : List (Effect F32)) (request : RestoreSnapshot e)
      → (apply e p h).1 ≢ some settling
      → e.now l < e.now (apply e p h).0.1 + cycle_cooldown
      → (apply e (apply e p h).0.0 l ≡ (((apply e p h).0.0, l), some settling))
        × (restore e (apply e p h).0.0 request l ≡ (((apply e p h).0.0, l), some Restore.settling))
  apply-settling p h l request n q =
      turned_away (apply e p h).0.0 (e.now (apply e p h).0.1) l request (apply-stamps p h n) q
