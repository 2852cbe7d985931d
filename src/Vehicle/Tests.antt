-- ===== src/Vehicle/Tests.antt =====
-- A vehicle whose parts are numbers, for the theorems about it and about what resets it.
use hitl_daemon.Base.{ℕ, ◌≤◌, Bool, true, false, ltb, List, [], ◌∷◌, u64_max, arith}
use hitl_daemon.Vehicle.{
  Physics, ActuatorOutputs, Access, set_armed, set_heartbeat_status, stop, reconfigure, reset, new,
  new_inner, Actuation,
}

abbrev pub numbers : Physics
numbers = record {
  Config = ℕ;
  Quadrotor = ℕ;
  Battery = ℕ;
  Sensors = ℕ;
  Motors = ℕ;
  Voltage = ℕ;
  at_rest = 0;
  stopped = 0;
  fully_charged = λ c. c;
  voltage = λ b. b;
  recharge = λ b. b;
  with_config = λ c. c;
  active = λ m. ltb 0 m;
}

abbrev accesses : List (Access numbers)
accesses = set_heartbeat_status true true ∷ set_armed true ∷ stop ∷ reconfigure 16 ∷ reset ∷ []

at_zero : (new numbers 12).inner.heartbeat_count ≤ u64_max
unfolding new new_inner
at_zero = omega arith

-- The last command is 1 s old.
abbrev flying : Actuation numbers
flying = record {
  state = record {
    quadrotor = 0;
    battery = 12;
    battery_terminal_voltage = 12;
    battery_current_drawn = true;
    sensors = 12;
    sim_time_us = 5000000;
    motor_commands = 7;
    running = true;
    armed = true;
    board_stall = false;
    flight_mode = 3;
    landed_state = 2;
    heartbeat_count = 9;
    hitl_enabled = true;
    is_quadrotor = true;
  };
  actuator_count = 40;
  last_actuator_time = 4000000000;
}

abbrev command : ℕ → Bool → ActuatorOutputs ℕ
command m a = record { motors = m; is_armed = a }
