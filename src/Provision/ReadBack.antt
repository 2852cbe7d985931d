-- ===== src/Provision/ReadBack.antt =====
-- The read-back of `restore`, and the board it writes to.
use Prim.Native.String.{String}
use text.Mathlib.Text.{◌==◌}
use text.Mathlib.TextEquality.{eq_iff}
use hitl_daemon.Base.{
  Bool-cases, ℕ, zero, suc, ◌≡◌, ◌≢◌, inl, inr, refl, sym, ap, subst, Bool, true, false, Option,
  none, some, List, [], ◌∷◌, map, arith,
}
use hitl_daemon.Provision.{
  param_request_read, sent, full, writing, verifying, ParamValue, SnapshotParam, Effect, tried,
  drained, slept, told_restore, Env,
}
use hitl_daemon.Provision.Cycle.{save_and_reboot}
use hitl_daemon.Provision.Handler.{PreflightHandler}
use hitl_daemon.Provision.Reads.{read_attempts, note_read, read_params_with}
use hitl_daemon.Provision.Written.{Written, Written-within, restore_all-Written}
use hitl_daemon.Provision.Rebooted.{Rebooted, save_and_reboot-Rebooted}
use hitl_daemon.Provision.Answers.{
  Extends, Answered-within, Answered, Genuine, await_param-name, read_params_with-Genuine,
  find_value-Answered,
}
use hitl_daemon.Provision.Restore.{
  RestoreSnapshot, RestoreMismatch, find_value, note_mismatch, mismatches, verify_restore,
  write_back, restore_matching, restore_all, restore_guarded, restore_inner,
}

some-none : {A : Type 0} (a : A) → some a ≢ none
some-none a q = ground arith

module _ (e : Env) where
  open e use {F32, decoded_value, apart}

  read_attempts-name :
      (n : ℕ) (name : String) (h : List (Effect F32)) (v : ParamValue F32)
      → (read_attempts e n name h).1 ≡ some v
      → (v.name == name) ≡ true
  unfolding read_attempts
  read_attempts-name zero name h v q = ground arith
  read_attempts-name (suc n) name h v q = ground (
    arith,
    await_param-name e name (e.param_values (tried (param_request_read name) sent ∷ h)) v,
    read_attempts-name n name (slept 50 ∷ tried (param_request_read name) full ∷ h) v,
    read_attempts-name n name (drained ∷ tried (param_request_read name) sent ∷ h) v,
  )

  -- Every name has a value.
  pub Has : List String → List (ParamValue F32) → Type 0
  Has [] values = Unit {0}
  Has (n ∷ ns) values = ((v : ParamValue F32) × (find_value e n values ≡ some v)) × Has ns values

  find_value-more :
      (n : String) (values : List (ParamValue F32)) (w : ParamValue F32)
      → ((v : ParamValue F32) × (find_value e n values ≡ some v))
      → (v : ParamValue F32) × (find_value e n (w ∷ values) ≡ some v)
  unfolding find_value
  find_value-more n values w (v, q) = elim (Bool-cases (w.name == n)) [
    | inl c ↦ (w, rw (c, find_value) refl)
    | inr c ↦ (v, rw (c, find_value) q)
  ]

  Has-more :
      (ns : List String) (values : List (ParamValue F32)) (w : ParamValue F32)
      → Has ns values
      → Has ns (w ∷ values)
  unfolding Has
  Has-more [] values w u = u
  Has-more (n ∷ ns) values w (a, b) = (find_value-more n values w a, Has-more ns values w b)

  found :
      (n : String) (values : List (ParamValue F32)) (w : ParamValue F32)
      → (w.name == n) ≡ true
      → (v : ParamValue F32) × (find_value e n (w ∷ values) ≡ some v)
  unfolding find_value
  found n values w q = (w, rw (q, find_value) refl)

  note_read-Has :
      (r : Option (ParamValue F32)) (name : String) (names : List String)
      (others : List (ParamValue F32) × List String)
      → ((v : ParamValue F32) → r ≡ some v → (v.name == name) ≡ true)
      → (others.1 ≡ [] → Has names others.0)
      → (note_read e r name others).1 ≡ []
      → Has (name ∷ names) (note_read e r name others).0
  unfolding note_read Has
  note_read-Has (some pv) name names (values, missing) f g q =
      (found name values pv (f pv refl), Has-more names values pv (g q))
  note_read-Has none name names (values, missing) f g q = ground arith

  pub read_params_with-Has :
      (names : List String) (h : List (Effect F32))
      → (read_params_with e names h).1.1 ≡ []
      → Has names (read_params_with e names h).1.0
  unfolding read_params_with Has
  read_params_with-Has [] h q = tt
  read_params_with-Has (name ∷ names) h q =
      note_read-Has (read_attempts e 3 name h).1 name names
        (read_params_with e names (read_attempts e 3 name h).0).1 (read_attempts-name 3 name h)
        (read_params_with-Has names (read_attempts e 3 name h).0) q

  -- Between two histories the board was asked for each parameter and answered with a value that is
  -- not apart from the snapshot's.
  abbrev Restored : List (Effect F32) → List (Effect F32) → List (SnapshotParam F32) → Type 0
  Restored from to [] = Unit {0}
  Restored from to (x ∷ xs) =
      ((v : ParamValue F32) × Answered e from to x.name v
        × (apart (decoded_value v) x.value ≡ false))
      × Restored from to xs

  Restored-within :
      (a b to : List (Effect F32)) (xs : List (SnapshotParam F32))
      → Extends e a b
      → Restored b to xs
      → Restored a to xs
  Restored-within a b to [] x r = tt
  Restored-within a b to (p ∷ ps) x ((v, w, c), rs) =
      ((v, Answered-within e a b to to p.name v x ([], refl) w, c), Restored-within a b to ps x rs)

  note_mismatch-none :
      (x : SnapshotParam F32) (v : ParamValue F32) (others : List (RestoreMismatch e))
      → note_mismatch e x (some v) others ≡ []
      → (apart (decoded_value v) x.value ≡ false) × (others ≡ [])
  unfolding note_mismatch
  note_mismatch-none x v others q = ground arith

  mismatches-Restored :
      (from to : List (Effect F32)) (xs : List (SnapshotParam F32)) (values : List (ParamValue F32))
      → mismatches e xs values ≡ []
      → Genuine e from to values
      → Has (map (λ (x : SnapshotParam F32). x.name) xs) values
      → Restored from to xs
  unfolding mismatches Has
  mismatches-Restored from to [] values q g u = tt
  mismatches-Restored from to (x ∷ xs) values q g ((v, f), rest) =
      let (a, b) =
        note_mismatch-none x v (mismatches e xs values)
          (subst (λ r. note_mismatch e x r (mismatches e xs values) ≡ []) f q) in
      (
        (v, find_value-Answered e from to x.name values v g f, a),
        mismatches-Restored from to xs values b g rest,
      )

  verify_restore-Restored :
      (xs : List (SnapshotParam F32)) (h : List (Effect F32))
      → (verify_restore e xs h).1 ≡ none
      → Restored (told_restore verifying ∷ h) (verify_restore e xs h).0 xs
  unfolding verify_restore
  verify_restore-Restored xs h q =
      let names = map (λ (x : SnapshotParam F32). x.name) xs in
      let k : List (Effect F32) = told_restore verifying ∷ h in
      let values = (read_params_with e names k).1.0 in
      let read_all : (read_params_with e names k).1.1 ≡ [] = ground arith in
      let fits : mismatches e xs values ≡ [] = ground arith in
      let end : (verify_restore e xs h).0 ≡ (read_params_with e names k).0 = ground arith in
      subst (λ t. Restored k t xs) (sym end)
        (mismatches-Restored k (read_params_with e names k).0 xs values fits
          (read_params_with-Genuine e names k) (read_params_with-Has names k read_all))

  -- From a history every parameter was written and confirmed, after that the board was told to
  -- save and to reboot, and after that it was read back, up to another history.
  abbrev pub ReadBack : List (SnapshotParam F32) → List (Effect F32) → List (Effect F32) → Type 0
  ReadBack xs h to =
      (written rebooted : List (Effect F32)) × Written e h written xs
      × Rebooted e written rebooted
      × Restored rebooted to xs

  write_back-ReadBack :
      (xs : List (SnapshotParam F32)) (h : List (Effect F32))
      → (write_back e xs h).1 ≡ none
      → ReadBack xs h (write_back e xs h).0
  unfolding write_back
  write_back-ReadBack xs h q =
      let j : List (Effect F32) = told_restore writing ∷ h in
      let k = (restore_all e xs j).0 in
      let l = (save_and_reboot e told_restore k).0 in
      let a : (restore_all e xs j).1 ≡ none = ground arith in
      let b : (save_and_reboot e told_restore k).1 ≡ none = ground arith in
      let c : (verify_restore e xs l).1 ≡ none = ground arith in
      let end : (write_back e xs h).0 ≡ (verify_restore e xs l).0 = ground arith in
      (
        k,
        l,
        Written-within e h j k k xs (told_restore writing ∷ [], refl) ([], refl)
            (restore_all-Written e xs j a).0,
        save_and_reboot-Rebooted e k b,
        subst (λ t. Restored l t xs) (sym end)
            (Restored-within l (told_restore verifying ∷ l) _ xs (told_restore verifying ∷ [], refl)
              (verify_restore-Restored xs l c)),
      )

  matching-ReadBack :
      (b : Bool) (xs : List (SnapshotParam F32)) (h : List (Effect F32))
      → ((restore_matching e b xs h).0 ≢ h → b ≡ true)
        × ((restore_matching e b xs h).1 ≡ none → ReadBack xs h (restore_matching e b xs h).0)
  unfolding restore_matching
  matching-ReadBack false xs h = (ground arith, λ q. absurd (some-none _ q))
  matching-ReadBack true [] h = (ground arith, λ q. absurd (some-none _ q))
  matching-ReadBack true (x ∷ xs) h = (λ n. refl, write_back-ReadBack (x ∷ xs) h)

  guarded-ReadBack :
      (b c : Bool) (id : Option String) (request : RestoreSnapshot e) (h : List (Effect F32))
      → ((restore_guarded e b c id request h).0 ≢ h → id ≡ some request.board_identity)
        × ((restore_guarded e b c id request h).1 ≡ none
            → ReadBack request.params h (restore_guarded e b c id request h).0)
  unfolding restore_guarded
  guarded-ReadBack true c id request h = (ground arith, λ q. absurd (some-none _ q))
  guarded-ReadBack false false id request h = (ground arith, λ q. absurd (some-none _ q))
  guarded-ReadBack false true none request h = (ground arith, λ q. absurd (some-none _ q))
  guarded-ReadBack false true (some board) request h =
      let (a, b) = matching-ReadBack (board == request.board_identity) request.params h in
      (λ n. ap some ((eq_iff board request.board_identity).0 (a n)), b)

  -- A restore that does anything at all does it while the board's identity is that of the
  -- snapshot.
  pub restore_inner-own_board :
      (p : PreflightHandler e) (request : RestoreSnapshot e) (h : List (Effect F32))
      → (restore_inner e p request h).0 ≢ h
      → p.board_identity ≡ some request.board_identity
  unfolding restore_inner
  restore_inner-own_board p request h =
      (guarded-ReadBack p.applying p.connected p.board_identity request h).0

  -- In the history of a restore that reports success, every parameter of the snapshot went out and
  -- was confirmed; after that a save went out, then, after the pause, the reboot was accepted; and
  -- after that a request for each parameter went out, to which the board answered with a value
  -- that is not apart from the snapshot's.
  pub restore_inner-ReadBack :
      (p : PreflightHandler e) (request : RestoreSnapshot e) (h : List (Effect F32))
      → (restore_inner e p request h).1 ≡ none
      → ReadBack request.params h (restore_inner e p request h).0
  unfolding restore_inner
  restore_inner-ReadBack p request h =
      (guarded-ReadBack p.applying p.connected p.board_identity request h).1
