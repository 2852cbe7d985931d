-- ===== src/Link.antt =====
-- crates/mavlink-io/src/heartbeat.rs: the state of the connection as the heartbeats show it.
-- Instants are nanoseconds; `now` is an argument.
pub mod Liveness
pub mod Reader
pub mod Drain
pub mod Chunking
pub mod Growth
pub mod Tests
use hitl_daemon.Base.{
  ℕ, ◌-◌, Bool, true, false, ltb, if◌then◌else◌, Option, none, some, List, [], ◌∷◌,
}

-- 5 s.
abbrev pub heartbeat_timeout : ℕ
heartbeat_timeout = 5000000000

pub data ConnectionState : Type 0 where
  disconnected connected armed : ConnectionState

pub record HeartbeatManager : Type 0 where
  pub state : ConnectionState
  pub last_heartbeat : Option ℕ
  pub remote_system_id : Option ℕ
  pub remote_component_id : Option ℕ
  -- Whether the mode flags of the last heartbeat held SAFETY_ARMED, the one flag that is read.
  pub last_base_mode_armed : Option Bool

unfoldable pub new : HeartbeatManager
new = record {
  state = disconnected;
  last_heartbeat = none;
  remote_system_id = none;
  remote_component_id = none;
  last_base_mode_armed = none;
}

-- The state is only assigned where it differs, which comes to an assignment.
unfoldable pub on_heartbeat_received : HeartbeatManager → ℕ → ℕ → Bool → ℕ → HeartbeatManager
on_heartbeat_received m system_id component_id is_armed now = record {
  state = if is_armed then armed else connected;
  last_heartbeat = some now;
  remote_system_id = some system_id;
  remote_component_id = some component_id;
  last_base_mode_armed = some is_armed;
}

unfoldable pub is_disconnected : ConnectionState → Bool
is_disconnected disconnected = true
is_disconnected connected = false
is_disconnected armed = false

unfoldable pub check_timeout : HeartbeatManager → ℕ → HeartbeatManager × Bool
unfolding is_disconnected
check_timeout m now = elim m.last_heartbeat [
  | none ↦ (m, false)
  | some last ↦
      if ltb heartbeat_timeout (now - last)
      then if is_disconnected m.state then (m, false) else (record m { state = disconnected }, true)
      else (m, false)
]

-- The calls that change a manager, each with its instant.
pub data Event : Type 0 where
  heartbeat : ℕ → ℕ → Bool → ℕ → Event
  check : ℕ → Event

unfoldable pub step : HeartbeatManager → Event → HeartbeatManager
unfolding on_heartbeat_received check_timeout
step m (heartbeat system_id component_id is_armed now) =
    on_heartbeat_received m system_id component_id is_armed now
step m (check now) = (check_timeout m now).0

unfoldable pub run : HeartbeatManager → List Event → HeartbeatManager
run m [] = m
run m (e ∷ rest) = run (step m e) rest
