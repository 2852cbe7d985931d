-- ===== src/Emission/Tests.antt =====
-- A queue that fills up, and the theorems at its messages.
use hitl_daemon.Base.{ℕ, ◌+◌, ◌*◌, ◌≡◌, inr, refl, true, none, some, List, [], ◌∷◌, arith}
use hitl_daemon.Provision.{Sent, sent, full, disconnected}
use hitl_daemon.Emission.{State, Emission}
use hitl_daemon.Emission.Drops.{
  after_all, named_by, Justified, after_all-named, sample_and_send_sensors-Justified,
}
use hitl_daemon.Emission.Readings.{Messages, sample_and_send_sensors-Messages}

abbrev start : State ℕ ℕ ℕ ℕ ℕ
start = record {
  total_ticks = 0;
  ground_impact_until_us = none;
  ground_impact_accel = 1;
  ground_contact_active = true;
  ground_rest_accel_body = 9;
  last_mag = none;
  last_baro = none;
  next_mag_us = 0;
  next_baro_us = 0;
  queue = record {
    hil_sensor_count = 0;
    hil_gps_count = 0;
    sensor_drops = 0;
    drop_count_since_last_warning = 0;
    last_drop_warning = 0;
    channel_full_since = none;
  };
}

abbrev at : ℕ → Sent → Emission ℕ ℕ ℕ ℕ ℕ
at now outcome = record {
  sim_time_us = now * 1000;
  integrated_time_us = now * 1000;
  mean_accel_body = 3;
  imu = λ accel. accel;
  mag = now;
  baro = now;
  gps = some now;
  now = now;
  sensor_sent = outcome;
  gps_sent = outcome;
}

-- Full from 3 s on: a warning at 5 s and an alarm at 6 s.
abbrev messages : List (Emission ℕ ℕ ℕ ℕ ℕ)
messages =
    at 0 sent ∷ at 3 sent ∷ at 3000 full ∷ at 5000 full ∷ at 6000 full ∷ at 6005 disconnected ∷ []

after_all-named_example :
    named_by ℕ ℕ ℕ ℕ ℕ start messages
      + (after_all ℕ ℕ ℕ ℕ ℕ start messages).queue.drop_count_since_last_warning
      + 0
    ≡ 0 + (after_all ℕ ℕ ℕ ℕ ℕ start messages).queue.sensor_drops
after_all-named_example = after_all-named ℕ ℕ ℕ ℕ ℕ start messages

sample_and_send_sensors-Justified_example : Justified ℕ ℕ ℕ ℕ ℕ 0 start messages
sample_and_send_sensors-Justified_example =
    sample_and_send_sensors-Justified ℕ ℕ ℕ ℕ ℕ 0 start messages
      (omega arith, (omega arith, (omega arith, (omega arith, (omega arith, (omega arith, tt))))))
      tt

sample_and_send_sensors-Messages_example : Messages ℕ ℕ ℕ ℕ ℕ none none start messages
sample_and_send_sensors-Messages_example =
    sample_and_send_sensors-Messages ℕ ℕ ℕ ℕ ℕ start messages (inr (refl, refl))
