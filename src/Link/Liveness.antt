-- ===== src/Link/Liveness.antt =====
-- The state of `HeartbeatManager` against the last heartbeat it was given.
use hitl_daemon.Base.{
  ℕ, ◌+◌, ◌≤◌, ◌≡◌, ◌≢◌, ◌⊎◌, inl, inr, refl, true, false, Option, none, some, List, [], ◌∷◌, arith,
}
use hitl_daemon.Link.{
  HeartbeatManager, disconnected, connected, armed, new, on_heartbeat_received, check_timeout,
  is_disconnected, heartbeat_timeout, Event, heartbeat, check, step, run,
}

-- What the state of a manager says of the flag of its last heartbeat.
Shown : HeartbeatManager → Type 0
Shown m =
    ((m.state ≡ armed) × (m.last_base_mode_armed ≡ some true))
    ⊎ ((m.state ≡ connected) × (m.last_base_mode_armed ≡ some false))

IsShown : HeartbeatManager → Type 0
IsShown m = (m.state ≡ disconnected) ⊎ (m.last_heartbeat ≢ none) × Shown m

step-IsShown : (m : HeartbeatManager) (e : Event) → IsShown m → IsShown (step m e)
unfolding IsShown Shown step on_heartbeat_received check_timeout
step-IsShown m (heartbeat s c a now) v = ground arith
step-IsShown m (check now) v = ground arith

run-IsShown : (es : List Event) (m : HeartbeatManager) → IsShown m → IsShown (run m es)
unfolding run
run-IsShown [] m v = v
run-IsShown (e ∷ es) m v = run-IsShown es (step m e) (step-IsShown m e v)

Option-cases : (o : Option ℕ) → (o ≡ none) ⊎ ((last : ℕ) × (o ≡ some last))
Option-cases none = inl refl
Option-cases (some last) = inr (last, refl)

check_timeout-recent :
    (m : HeartbeatManager) (last now : ℕ)
    → m.last_heartbeat ≡ some last
    → ((check_timeout m now).0.state ≡ disconnected)
      ⊎ ((check_timeout m now).0 ≡ m) × (now ≤ last + heartbeat_timeout)
unfolding check_timeout is_disconnected
check_timeout-recent m last now q = ground arith

-- A manager that is up, and its last heartbeat.
pub IsLive : HeartbeatManager → ℕ → Type 0
IsLive m now =
    (last : ℕ) × (m.last_heartbeat ≡ some last)
    × (now ≤ last + heartbeat_timeout)
    × (((m.state ≡ armed) × (m.last_base_mode_armed ≡ some true))
        ⊎ ((m.state ≡ connected) × (m.last_base_mode_armed ≡ some false)))

check_timeout-unseen :
    (m : HeartbeatManager) (now : ℕ)
    → m.last_heartbeat ≡ none
    → IsShown m
    → (check_timeout m now).0.state ≡ disconnected
unfolding check_timeout IsShown
check_timeout-unseen m now q v = ground arith

Shown-IsLive :
    (m : HeartbeatManager) (last now : ℕ)
    → IsShown m
    → m.last_heartbeat ≡ some last
    → now ≤ last + heartbeat_timeout
    → (m.state ≡ disconnected) ⊎ IsLive m now
unfolding IsShown Shown IsLive
Shown-IsLive m last now (inl d) q recent = inl d
Shown-IsLive m last now (inr (n, s)) q recent = inr (last, q, recent, s)

check_timeout-IsLive :
    (m : HeartbeatManager) (now : ℕ)
    → IsShown m
    → ((check_timeout m now).0.state ≡ disconnected) ⊎ IsLive (check_timeout m now).0 now
check_timeout-IsLive m now v = elim (Option-cases m.last_heartbeat) [
  | inl q ↦ inl (check_timeout-unseen m now q v)
  | inr (last, q) ↦ elim (check_timeout-recent m last now q) [
    | inl d ↦ inl d
    | inr (same, recent) ↦ rw same (Shown-IsLive m last now v q recent)
  ]
]

-- After any heartbeats and checks and a check at an instant, the manager is disconnected, or its
-- last heartbeat is at most 5 s older than that instant and the state is armed or connected as
-- that heartbeat said.
pub run-IsLive :
    (es : List Event) (now : ℕ)
    → ((check_timeout (run new es) now).0.state ≡ disconnected)
      ⊎ IsLive (check_timeout (run new es) now).0 now
unfolding new IsShown
run-IsLive es now = check_timeout-IsLive (run new es) now (run-IsShown es new (inl refl))
