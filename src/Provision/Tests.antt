-- ===== src/Provision/Tests.antt =====
-- A board that takes every write and comes back 5 s after a reboot, a browser that stores every
-- snapshot, and the theorems at them.
use Prim.Native.String.{String}
use hitl_daemon.Base.{
  ℕ, ◌+◌, ◌≤◌, ◌≡◌, ◌≢◌, ◌⊎◌, refl, eqb, leb, not, if◌then◌else◌, true, false, some, none, List, [],
  ◌∷◌, arith,
}
use hitl_daemon.Provision.{
  int_param, real_param, param_set, param_request_read, sent, ParamValue, Effect, tried, drained,
  slept, told_apply, told_restore, captured, asked_nsh, capturing, Delivery, delivered, Env,
  send_with_backpressure, acked,
}
use hitl_daemon.Provision.Cycle.{poll_reconnect, wait_for_reconnect, save_and_reboot}
use hitl_daemon.Provision.Handler.{
  PreflightHandler, apply, apply_inner, capture_and_confirm_snapshot, provision, settling,
}
use hitl_daemon.Provision.Reads.{read_params_with}
use hitl_daemon.Provision.Restore.{RestoreSnapshot, restore_inner}
use hitl_daemon.Provision.Counts.{Within}
use hitl_daemon.Provision.Writes.{apply_inner-nothing_written}
use hitl_daemon.Provision.Order.{safe, provision-safe}
use hitl_daemon.Provision.Outcomes.{RestorePoint, apply_inner-succeeds}
use hitl_daemon.Provision.ReadBack.{ReadBack, restore_inner-own_board, restore_inner-ReadBack}
use hitl_daemon.Provision.Reconnect.{Trusted, wait_for_reconnect-Trusted, wait_for_reconnect-ends}

none-some : {A : Type 0} (x : A) → none ≢ some x
none-some x q = ground arith

cons_nil : {A : Type 0} (x : A) (xs : List A) → x ∷ xs ≢ []
cons_nil x xs q = ground arith

abbrev elapsed : List (Effect ℕ) → ℕ
elapsed [] = 0
elapsed (slept d ∷ h) = elapsed h + d
elapsed (tried m o ∷ h) = elapsed h
elapsed (drained ∷ h) = elapsed h
elapsed (told_apply p ∷ h) = elapsed h
elapsed (told_restore p ∷ h) = elapsed h
elapsed (captured b ps ∷ h) = elapsed h
elapsed (asked_nsh ∷ h) = elapsed h

-- The heartbeats: five before a reboot, and one more 5 s after it.
abbrev beats : ℕ → List (Effect ℕ) → ℕ
beats since [] = 5
beats since (asked_nsh ∷ h) = if leb 5000 since then 6 else 5
beats since (slept d ∷ h) = beats (since + d) h
beats since (tried m o ∷ h) = beats since h
beats since (drained ∷ h) = beats since h
beats since (told_apply p ∷ h) = beats since h
beats since (told_restore p ∷ h) = beats since h
beats since (captured b ps ∷ h) = beats since h

abbrev echo : String → ℕ → List (Delivery (ParamValue ℕ))
echo name value = delivered (record { name = name; value = value; param_type_int = true }) ∷ []

abbrev answer : List (Effect ℕ) → List (Delivery (ParamValue ℕ))
answer h = elim h [
  | tried (param_set (int_param name value)) _ ∷ _ ↦ echo name value
  | tried (param_set (real_param name value)) _ ∷ _ ↦ echo name value
  | tried (param_request_read name) _ ∷ _ ↦ echo name 1
  | _ ↦ []
]

abbrev pub bench : Env
bench = record {
  F32 = ℕ;
  to_bits = λ v. v;
  to_i32 = λ v. v;
  decoded_value = λ v. v.value;
  close = λ a b. eqb a b;
  apart = λ a b. not (eqb a b);
  of_nat = λ n. n;
  try_send = λ h m. sent;
  param_values = answer;
  acknowledgements = λ h. delivered (record { board_identity = "uid:aa"; stored = true }) ∷ [];
  browser = λ h. true;
  nsh_accepts = λ h. true;
  heartbeat_status = λ h. (beats 0 h, true, true);
  now = elapsed;
}

abbrev handler : PreflightHandler bench
handler = record {
  connected = true;
  applying = false;
  board_identity = some "uid:aa";
  session_snapshot = none;
  last_cycle_finished = none;
}

abbrev request : RestoreSnapshot bench
request = record {
  board_identity = "uid:aa";
  params = record { name = "SYS_HITL"; value = 1; param_type_int = true } ∷ [];
}

back : (wait_for_reconnect bench 5 (asked_nsh ∷ [])).1 ≡ true
unfolding wait_for_reconnect
back = refl

wait_for_reconnect-Trusted_example :
    Trusted bench 5 (asked_nsh ∷ []) (wait_for_reconnect bench 5 (asked_nsh ∷ [])).0
wait_for_reconnect-Trusted_example = wait_for_reconnect-Trusted bench 5 (asked_nsh ∷ []) back

sleeps : (d : ℕ) (h : List (Effect ℕ)) → elapsed h + d ≤ elapsed (slept d ∷ h)
sleeps d h = omega arith

wait_for_reconnect-ends_example :
    poll_reconnect bench 300 (0 + 60000) 5 0 false (asked_nsh ∷ [])
    ≡ wait_for_reconnect bench 5 (asked_nsh ∷ [])
wait_for_reconnect-ends_example =
    wait_for_reconnect-ends bench sleeps 300 5 (asked_nsh ∷ []) (omega arith)

apply_inner-nothing_written_example :
    ((handler.applying ≡ false)
      × (handler.connected ≡ true)
      × ((capture_and_confirm_snapshot bench handler (told_apply capturing ∷ [])).1 ≡ none))
    ⊎ Within 0 0 0 [] (apply_inner bench handler []).0.1
apply_inner-nothing_written_example = apply_inner-nothing_written bench handler []

provision-safe_example : safe (provision bench 2 []).0 ≡ true
provision-safe_example = provision-safe bench 2 [] refl

applied : (apply_inner bench handler []).1 ≡ none
unfolding apply_inner acked send_with_backpressure
applied = refl

restored : (restore_inner bench handler request []).1 ≡ none
unfolding restore_inner send_with_backpressure acked save_and_reboot read_params_with
restored = refl

apply_inner-succeeds_example :
    RestorePoint bench handler.board_identity [] (apply_inner bench handler []).0.1
    × (bench.heartbeat_status (apply_inner bench handler []).0.1).1 ≡ true
    × (bench.heartbeat_status (apply_inner bench handler []).0.1).2 ≡ true
apply_inner-succeeds_example = apply_inner-succeeds bench handler [] applied

not_turned_away : (apply bench handler []).1 ≢ some settling
unfolding apply acked send_with_backpressure
not_turned_away = none-some settling

wrote : (restore_inner bench handler request []).0 ≢ []
unfolding restore_inner send_with_backpressure acked save_and_reboot read_params_with
wrote = cons_nil _ _

restore_inner-ReadBack_example :
    ReadBack bench request.params [] (restore_inner bench handler request []).0
restore_inner-ReadBack_example = restore_inner-ReadBack bench handler request [] restored

restore_inner-own_board_example : handler.board_identity ≡ some request.board_identity
restore_inner-own_board_example = restore_inner-own_board bench handler request [] wrote
