-- ===== src/Emission.antt =====
-- crates/simulation/src/loop_runner.rs: what an iteration sends to the flight controller, and the lines
-- about messages that did not fit. Readings and messages are given types; instants are milliseconds.
pub mod Drops
pub mod Readings
pub mod Tests
use hitl_daemon.Base.{
  ℕ, suc, ◌+◌, ◌-◌, ◌==◌, Bool, true, false, ◌&&◌, ◌||◌, ltb, leb, if◌then◌else◌, Option, none,
  some, List, [], ◌∷◌,
}
use hitl_daemon.Cadence.{next_slot_us}
use hitl_daemon.Provision.{Sent, sent, full, disconnected}

abbrev pub drop_warn_interval : ℕ
drop_warn_interval = 5000

abbrev pub drop_error_threshold : ℕ
drop_error_threshold = 2000

abbrev sensor_50hz_period_us : ℕ
sensor_50hz_period_us = 20000

-- A line of the log: the drops it names, or the alarm that the channel stays full.
pub data Line : Type 0 where
  warned : ℕ → Line
  alarmed : Line

-- The counters of the queue to the writer. They count the messages of one session and stay far below
-- 2 ^ 64.
pub record Queue : Type 0 where
  pub hil_sensor_count : ℕ
  pub hil_gps_count : ℕ
  pub sensor_drops : ℕ
  pub drop_count_since_last_warning : ℕ
  pub last_drop_warning : ℕ
  pub channel_full_since : Option ℕ

abbrev pub or_now : Option ℕ → ℕ → ℕ
or_now none now = now
or_now (some since) now = since

-- A dropped HIL_SENSOR, and the line that it is worth.
unfoldable pub on_full : ℕ → Queue → Queue × Option Line
on_full now q =
    let full_since = or_now q.channel_full_since now in
    let drops = q.drop_count_since_last_warning + 1 in
    let counted = record q {
      sensor_drops = q.sensor_drops + 1;
      drop_count_since_last_warning = drops;
      channel_full_since = some full_since;
    } in
    if leb drop_error_threshold (now - full_since)
    then (record counted { channel_full_since = some now }, some alarmed)
    else if leb drop_warn_interval (now - q.last_drop_warning)
    then (
      record counted { last_drop_warning = now; drop_count_since_last_warning = 0 },
      some (warned drops),
    )
    else (counted, none)

unfoldable pub on_sensor : ℕ → Sent → Queue → Queue × Option Line
on_sensor now sent q =
    (record q { hil_sensor_count = q.hil_sensor_count + 1; channel_full_since = none }, none)
on_sensor now full q = on_full now q
on_sensor now disconnected q = (q, none)

unfoldable pub on_gps : Sent → Queue → Queue
on_gps sent q = record q { hil_gps_count = q.hil_gps_count + 1 }
on_gps full q = record q {
  sensor_drops = q.sensor_drops + 1;
  drop_count_since_last_warning = q.drop_count_since_last_warning + 1;
}
on_gps disconnected q = q

module _ (Accel Imu Mag Baro Gps : Type 0) where
  pub record State : Type 0 where
    pub total_ticks : ℕ
    pub ground_impact_until_us : Option ℕ
    pub ground_impact_accel : Accel
    pub ground_contact_active : Bool
    pub ground_rest_accel_body : Accel
    pub last_mag : Option Mag
    pub last_baro : Option Baro
    pub next_mag_us : ℕ
    pub next_baro_us : ℕ
    pub queue : Queue

  -- One iteration: what it integrated, what the sensors would read now, and what the queue takes.
  pub record Emission : Type 0 where
    pub sim_time_us : ℕ
    pub integrated_time_us : ℕ
    pub mean_accel_body : Accel
    pub imu : Accel → Imu
    pub mag : Mag
    pub baro : Baro
    pub gps : Option Gps
    pub now : ℕ
    pub sensor_sent : Sent
    pub gps_sent : Sent

  -- The flags of the IMU are always set.
  pub record HilSensor : Type 0 where
    time_us : ℕ
    pub imu : Imu
    pub mag : Mag
    pub baro : Baro
    pub mag_flags : Bool
    pub baro_flags : Bool

  pub record HilGps : Type 0 where
    time_us : ℕ
    pub gps : Gps

  abbrev pub before : Option ℕ → ℕ → Bool
  before none t = false
  before (some until) t = ltb t until

  unfoldable pub impact_active : State → ℕ → Bool
  impact_active s sim_time_us = before s.ground_impact_until_us sim_time_us

  unfoldable pub ground_override : State → ℕ → Option Accel
  ground_override s sim_time_us =
      if impact_active s sim_time_us
      then some s.ground_impact_accel
      else if s.ground_contact_active
      then some s.ground_rest_accel_body
      else none

  abbrev or_else : {A : Type 0} → Option A → A → A
  or_else none b = b
  or_else (some a) b = a

  -- A reading on its schedule, and otherwise the one that is kept.
  abbrev pub reading : {A : Type 0} → Bool → Option A → A → A
  reading update last fresh = if update then fresh else or_else last fresh

  -- The message, and the state with the readings that are kept.
  unfoldable pub sample : State → Emission → HilSensor × State
  sample s x =
      let update_mag = leb s.next_mag_us x.sim_time_us in
      let update_baro = leb s.next_baro_us x.sim_time_us in
      let first_tick = s.total_ticks == 0 in
      let mag = reading update_mag s.last_mag x.mag in
      let baro = reading update_baro s.last_baro x.baro in
      (
        record {
          time_us = x.sim_time_us;
          imu = x.imu (or_else (ground_override s x.sim_time_us) x.mean_accel_body);
          mag = mag;
          baro = baro;
          mag_flags = update_mag || first_tick;
          baro_flags = update_baro || first_tick;
        },
        record s {
          last_mag = if update_mag then some mag else s.last_mag;
          next_mag_us =
              if update_mag
              then next_slot_us x.sim_time_us sensor_50hz_period_us
              else s.next_mag_us;
          last_baro = if update_baro then some baro else s.last_baro;
          next_baro_us =
              if update_baro
              then next_slot_us x.sim_time_us sensor_50hz_period_us
              else s.next_baro_us;
        },
      )

  -- What an iteration puts on the queue, and its line.
  pub record Emitted : Type 0 where
    pub state : State
    pub sensor : HilSensor
    pub gps : Option HilGps
    pub line : Option Line

  abbrev pub queue_gps : Option Gps → Sent → Queue → Queue
  queue_gps none outcome q = q
  queue_gps (some gps) outcome q = on_gps outcome q

  abbrev gps_message : Option Gps → ℕ → Option HilGps
  gps_message none t = none
  gps_message (some gps) t = some (record { time_us = t; gps = gps })

  unfoldable pub sample_and_send_sensors : State → Emission → Emitted
  sample_and_send_sensors s x =
      let (sensor, kept) = sample s x in
      let (queue, line) = on_sensor x.now x.sensor_sent s.queue in
      record {
        state = record kept { queue = queue_gps x.gps x.gps_sent queue };
        sensor = sensor;
        gps = gps_message x.gps x.integrated_time_us;
        line = line;
      }
