-- ===== src/Vehicle.antt =====
-- crates/simulation/src/state.rs: the state that the loop, the receiver and the WebSocket tasks
-- share, and the actuator input of crates/simulation/src/loop_runner.rs. Each locked access is one
-- function; the physics and sensor crates, which stand outside the repository, are a parameter.
pub mod Laws
pub mod Tests
use hitl_daemon.Base.{
  ℕ, suc, ◌+◌, ◌-◌, ◌%◌, min, Bool, true, false, ◌&&◌, ltb, if◌then◌else◌, Option, none, some, List,
  [], ◌∷◌, length, u64_max, saturating_add,
}

-- What the code uses of `hitl_physics` and `hitl_sensors`.
pub record Physics : Type 1 where
  pub Config : Type 0
  pub Quadrotor : Type 0
  pub Battery : Type 0
  pub Sensors : Type 0
  pub Motors : Type 0
  pub Voltage : Type 0
  pub at_rest : Quadrotor
  pub stopped : Motors
  pub fully_charged : Config → Battery
  pub voltage : Battery → Voltage
  pub recharge : Battery → Battery
  pub with_config : Config → Sensors
  -- Whether a motor command exceeds the threshold of 0.01.
  pub active : Motors → Bool

-- One decoded HIL_ACTUATOR_CONTROLS message; `is_armed` is its field `armed`.
pub record ActuatorOutputs (Motors : Type 0) : Type 0 where
  pub motors : Motors
  pub is_armed : Bool

-- 100 ms in nanoseconds.
abbrev pub actuator_stale_timeout : ℕ
actuator_stale_timeout = 100000000

module _ (p : Physics) where
  open p use {
    Config, Quadrotor, Battery, Sensors, Motors, Voltage, at_rest, stopped, fully_charged, voltage,
    with_config, active,
  }

  -- `battery_current_drawn` says whether `battery_current_a` may differ from zero.
  pub record SimulationStateInner : Type 0 where
    pub quadrotor : Quadrotor
    pub battery : Battery
    pub battery_terminal_voltage : Voltage
    pub battery_current_drawn : Bool
    pub sensors : Sensors
    pub sim_time_us : ℕ
    pub motor_commands : Motors
    pub running : Bool
    pub armed : Bool
    pub board_stall : Bool
    pub flight_mode : ℕ
    pub landed_state : ℕ
    pub heartbeat_count : ℕ
    pub hitl_enabled : Bool
    pub is_quadrotor : Bool

  pub record SimulationState : Type 0 where
    pub inner : SimulationStateInner
    pub config : Config
    pub config_generation : ℕ

  unfoldable pub new_inner : Config → SimulationStateInner
  new_inner config = record {
    quadrotor = at_rest;
    battery = fully_charged config;
    battery_terminal_voltage = voltage (fully_charged config);
    battery_current_drawn = false;
    sensors = with_config config;
    sim_time_us = 0;
    motor_commands = stopped;
    running = true;
    armed = false;
    board_stall = false;
    flight_mode = 0;
    landed_state = 0;
    heartbeat_count = 0;
    hitl_enabled = false;
    is_quadrotor = false;
  }

  unfoldable pub reset_inner : SimulationStateInner → Config → SimulationStateInner
  reset_inner i config = record i {
    quadrotor = at_rest;
    battery = fully_charged config;
    battery_terminal_voltage = voltage (fully_charged config);
    battery_current_drawn = false;
    sensors = with_config config;
    motor_commands = stopped;
    armed = false;
    board_stall = false;
    flight_mode = 0;
    landed_state = 0;
  }

  unfoldable pub new : Config → SimulationState
  unfolding new_inner
  new config = record { inner = new_inner config; config = config; config_generation = 0 }

  -- The accesses that write.
  pub data Access : Type 0 where
    set_motor_commands : Motors → Access
    set_armed : Bool → Access
    mark_fc_lost : Access
    set_flight_mode : ℕ → Access
    set_landed_state : ℕ → Access
    set_heartbeat_status : Bool → Bool → Access
    stop : Access
    reset : Access
    reconfigure : Config → Access
    recharge_battery : Access

  -- `fetch_add` on the generation wraps.
  unfoldable pub perform : SimulationState → Access → SimulationState
  unfolding reset_inner
  perform s (set_motor_commands motors) = record s {
    inner = record (s.inner) { motor_commands = motors };
  }
  perform s (set_armed armed) = record s { inner = record (s.inner) { armed = armed } }
  perform s mark_fc_lost = record s {
    inner = record (s.inner) { armed = false; board_stall = false; motor_commands = stopped };
  }
  perform s (set_flight_mode mode) = record s { inner = record (s.inner) { flight_mode = mode } }
  perform s (set_landed_state landed) = record s {
    inner = record (s.inner) { landed_state = landed };
  }
  perform s (set_heartbeat_status hitl quad) = record s {
    inner = record (s.inner) {
      heartbeat_count = saturating_add s.inner.heartbeat_count 1;
      hitl_enabled = hitl;
      is_quadrotor = quad;
    };
  }
  perform s stop = record s { inner = record (s.inner) { running = false } }
  perform s reset = record s { inner = reset_inner s.inner s.config }
  perform s (reconfigure config) = record s {
    config = config;
    inner = reset_inner s.inner config;
    config_generation = (s.config_generation + 1) % 18446744073709551616;
  }
  perform s recharge_battery =
      let battery = p.recharge s.inner.battery in
      record s {
        inner = record (s.inner) {
          battery = battery;
          battery_terminal_voltage = voltage battery;
          battery_current_drawn = false;
        };
      }

  unfoldable pub perform_all : SimulationState → List Access → SimulationState
  perform_all s [] = s
  perform_all s (a ∷ rest) = perform_all (perform s a) rest

  -- The loop's side of the actuator input. Instants are nanoseconds.
  pub record Actuation : Type 0 where
    pub state : SimulationStateInner
    pub actuator_count : ℕ
    pub last_actuator_time : ℕ

  unfoldable pub latest :
      Option (ActuatorOutputs Motors)
      → List (ActuatorOutputs Motors)
      → Option (ActuatorOutputs Motors)
  latest found [] = found
  latest found (a ∷ rest) = latest (some a) rest

  -- `process_actuator_commands`, given the messages that are pending.
  unfoldable pub process_actuator_commands :
      Actuation → List (ActuatorOutputs Motors) → ℕ → Actuation
  unfolding latest
  process_actuator_commands a pending now = elim (latest none pending) [
    | some out ↦ record {
      state = record (a.state) {
        motor_commands = out.motors;
        armed = out.is_armed;
        board_stall = false;
      };
      actuator_count = a.actuator_count + length pending;
      last_actuator_time = now;
    }
    | none ↦
        if active a.state.motor_commands && ltb actuator_stale_timeout (now - a.last_actuator_time)
        then record a { state = record (a.state) { motor_commands = stopped; board_stall = true } }
        else a
  ]
