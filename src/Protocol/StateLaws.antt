-- ===== src/Protocol/StateLaws.antt =====
-- The state frame decodes to what was sent.
use hitl_daemon.Base.{
  ℕ, Bool, true, false, ltb, leb, if◌then◌else◌, ◌<◌, ◌≡◌, refl, Option, none, some, List, ◌++◌,
  length, length-append, ◌+◌, take, ok, err, arith,
}
use hitl_daemon.Protocol.Bytes.{
  to_le_bytes, from_le_bytes, u8_from, nonzero, f32_at, le2, le4, le8, byte_at,
}
use hitl_daemon.Protocol.Errors.{message_too_short}
use hitl_daemon.Protocol.State.{
  Floats3, Floats4, StateUpdate, legacy_bytes, load_bytes, to_bytes, floats3_at, floats4_at, parse,
  from_bytes, f32_nan, unwrap_or,
}

abbrev pub FitsF32 : ℕ → Type 0
FitsF32 v = v < 4294967296

pub record Fits3 (v : Floats3) : Type 0 where
  pub a : FitsF32 v.a
  pub b : FitsF32 v.b
  pub c : FitsF32 v.c

pub record Fits4 (v : Floats4) : Type 0 where
  pub a : FitsF32 v.a
  pub b : FitsF32 v.b
  pub c : FitsF32 v.c
  pub d : FitsF32 v.d

abbrev pub FitsOption : Option ℕ → Type 0
FitsOption none = Unit {0}
FitsOption (some v) = FitsF32 v

-- Every field is in the range of its Rust type.
pub record Fits (s : StateUpdate) : Type 0 where
  pub timestamp_us : s.timestamp_us < 18446744073709551616
  pub position_ned : Fits3 s.position_ned
  pub velocity_ned : Fits3 s.velocity_ned
  pub quaternion_wxyz : Fits4 s.quaternion_wxyz
  pub angular_velocity : Fits3 s.angular_velocity
  pub motor_rpms : Fits4 s.motor_rpms
  pub battery_voltage : FitsF32 s.battery_voltage
  pub packets_per_sec : s.packets_per_sec < 65536
  pub terminal : FitsOption s.battery_terminal_voltage
  pub current : FitsOption s.battery_current_a

-- What the decoder makes of the load fields and of the flag that were sent.
abbrev pub sent_voltage : Option Bool → Option ℕ → Option ℕ → Option ℕ
sent_voltage (some stall) voltage current = some (unwrap_or f32_nan voltage)
sent_voltage none (some voltage) (some current) = some voltage
sent_voltage none (some voltage) none = none
sent_voltage none none current = none

abbrev pub sent_current : Option Bool → Option ℕ → Option ℕ → Option ℕ
sent_current (some stall) voltage current = some (unwrap_or f32_nan current)
sent_current none (some voltage) (some current) = some current
sent_current none (some voltage) none = none
sent_current none none current = none

abbrev pub received : ℕ → Option ℕ → Option ℕ → Option Bool → StateUpdate → StateUpdate
received landed voltage current stall s = record s {
  landed_state = landed;
  battery_terminal_voltage = voltage;
  battery_current_a = current;
  board_stall = stall;
}

-- The state that the frame of `s` stands for: with the flag, a missing load value is sent as NaN;
-- without the flag, one load value alone is not sent.
abbrev pub as_sent : StateUpdate → StateUpdate
as_sent s =
    received s.landed_state
      (sent_voltage s.board_stall s.battery_terminal_voltage s.battery_current_a)
      (sent_current s.board_stall s.battery_terminal_voltage s.battery_current_a) s.board_stall s

nonzero-u8_from : (b : Bool) → nonzero (u8_from b) ≡ b
nonzero-u8_from true = refl
nonzero-u8_from false = refl

abbrev coded : ℕ → ℕ
coded v = from_le_bytes (to_le_bytes 4 v)

abbrev coded3 : Floats3 → Floats3
coded3 v = record { a = coded v.a; b = coded v.b; c = coded v.c }

abbrev coded4 : Floats4 → Floats4
coded4 v = record { a = coded v.a; b = coded v.b; c = coded v.c; d = coded v.d }

coded3_lem : (v : Floats3) → Fits3 v → coded3 v ≡ v
coded3_lem v h = λ i. record { a = le4 v.a h.a i; b = le4 v.b h.b i; c = le4 v.c h.c i }

coded4_lem : (v : Floats4) → Fits4 v → coded4 v ≡ v
coded4_lem v h =
    λ i. record { a = le4 v.a h.a i; b = le4 v.b h.b i; c = le4 v.c h.c i; d = le4 v.d h.d i }

coded-option : (v : Option ℕ) → FitsOption v → coded (unwrap_or f32_nan v) ≡ unwrap_or f32_nan v
coded-option none h = refl
coded-option (some v) h = le4 v h

-- The fields that every frame has, written and read, before the ones that may be absent.
abbrev coded_fields : StateUpdate → StateUpdate
coded_fields s = record s {
  timestamp_us = from_le_bytes (to_le_bytes 8 s.timestamp_us);
  position_ned = coded3 s.position_ned;
  velocity_ned = coded3 s.velocity_ned;
  quaternion_wxyz = coded4 s.quaternion_wxyz;
  angular_velocity = coded3 s.angular_velocity;
  motor_rpms = coded4 s.motor_rpms;
  battery_voltage = coded s.battery_voltage;
  armed = nonzero (u8_from s.armed);
  packets_per_sec = from_le_bytes (to_le_bytes 2 s.packets_per_sec);
}

coded_fields_lem : (s : StateUpdate) → Fits s → coded_fields s ≡ s
coded_fields_lem s h = λ i. record s {
  timestamp_us = le8 s.timestamp_us h.timestamp_us i;
  position_ned = coded3_lem s.position_ned h.position_ned i;
  velocity_ned = coded3_lem s.velocity_ned h.velocity_ned i;
  quaternion_wxyz = coded4_lem s.quaternion_wxyz h.quaternion_wxyz i;
  angular_velocity = coded3_lem s.angular_velocity h.angular_velocity i;
  motor_rpms = coded4_lem s.motor_rpms h.motor_rpms i;
  battery_voltage = le4 s.battery_voltage h.battery_voltage i;
  armed = nonzero-u8_from s.armed i;
  packets_per_sec = le2 s.packets_per_sec h.packets_per_sec i;
}

legacy-length : (s : StateUpdate) → length (legacy_bytes s) ≡ 87
unfolding legacy_bytes
legacy-length s = refl

length-frame :
    (s : StateUpdate) (rest : List ℕ) → length (legacy_bytes s ++ rest) ≡ 87 + length rest
length-frame s rest = omega (arith, length-append {0} (legacy_bytes s) rest, legacy-length s)

module _ (s : StateUpdate) (h : Fits s) where
  from_bytes-load :
      (stall : Option Bool) (v c : Option ℕ)
      → FitsOption v
      → FitsOption c
      → from_bytes (legacy_bytes s ++ load_bytes stall v c)
        ≡ ok (received s.landed_state (sent_voltage stall v c) (sent_current stall v c) stall s)
  unfolding from_bytes parse legacy_bytes load_bytes floats3_at floats4_at
  from_bytes-load none none c hv hc =
      λ i. ok (received s.landed_state none none none (coded_fields_lem s h i))
  from_bytes-load none (some v) none hv hc =
      λ i. ok (received s.landed_state none none none (coded_fields_lem s h i))
  from_bytes-load none (some v) (some c) hv hc = λ i. ok (
      received s.landed_state (some (le4 v hv i)) (some (le4 c hc i)) none (coded_fields_lem s h i))
  from_bytes-load (some b) v c hv hc = λ i. ok (
      received s.landed_state (some (coded-option v hv i)) (some (coded-option c hc i))
        (some (nonzero-u8_from b i)) (coded_fields_lem s h i))

  from_bytes-short :
      (rest : List ℕ)
      → (ltb (length (legacy_bytes s ++ rest)) 86 ≡ false)
      → (leb 95 (length (legacy_bytes s ++ rest)) ≡ false)
      → (leb 96 (length (legacy_bytes s ++ rest)) ≡ false)
      → from_bytes (legacy_bytes s ++ rest) ≡ ok (received s.landed_state none none none s)
  unfolding from_bytes parse legacy_bytes floats3_at floats4_at
  from_bytes-short rest long no_load no_stall =
      let bytes = legacy_bytes s ++ rest in
      λ i.
        if long i
        then err (message_too_short 86 (length bytes))
        else ok (
            received s.landed_state (if no_load i then some (f32_at 87 bytes) else none)
              (if no_load i then some (f32_at 91 bytes) else none)
              (if no_stall i then some (nonzero (byte_at 95 bytes)) else none)
              (coded_fields_lem s h i))

  pub from_bytes-older :
      (rest : List ℕ)
      → length rest < 8
      → from_bytes (legacy_bytes s ++ rest) ≡ ok (received s.landed_state none none none s)
  from_bytes-older rest short =
      from_bytes-short rest (ground (arith, length-frame s rest))
        (ground (arith, length-frame s rest)) (ground (arith, length-frame s rest))

  pub from_bytes-oldest : from_bytes (take 86 (legacy_bytes s)) ≡ ok (received 0 none none none s)
  unfolding from_bytes parse legacy_bytes load_bytes floats3_at floats4_at
  from_bytes-oldest = λ i. ok (received 0 none none none (coded_fields_lem s h i))

-- A state update whose fields are in the range of their types is decoded to itself, but that the
-- two load figures come back only if the flag is known or both are, with NaN for one that is
-- missing beside a known flag.
pub from_bytes-to_bytes : (s : StateUpdate) → Fits s → from_bytes (to_bytes s) ≡ ok (as_sent s)
unfolding to_bytes
from_bytes-to_bytes s h =
    from_bytes-load s h s.board_stall s.battery_terminal_voltage s.battery_current_a h.terminal
      h.current
