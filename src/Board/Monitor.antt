-- ===== src/Board/Monitor.antt =====
-- crates/simulation/src/px4_health.rs: PX4's latest verdict on its pre-arm checks. A text is the
-- list of its bytes; the bits of a SYS_STATUS and the test for UTF-8 are given.
use hitl_daemon.Base.{
  ℕ, Bool, ◌&&◌, leb, ◌==◌, if◌then◌else◌, Option, none, some, List, [], ◌∷◌, length,
}
use hitl_daemon.Handler.Shell.{starts_with}

-- "Preflight Fail".
abbrev preflight_fail_prefix : List ℕ
preflight_fail_prefix =
    80 ∷ 114 ∷ 101 ∷ 102 ∷ 108 ∷ 105 ∷ 103 ∷ 104 ∷ 116 ∷ 32 ∷ 70 ∷ 97 ∷ 105 ∷ 108 ∷ []

pub record Px4Health : Type 0 where
  pub can_arm : Bool
  pub received_at : ℕ

-- The text of the latest refusal with the time of its arrival.
pub record Px4HealthMonitor : Type 0 where
  pub health : Option Px4Health
  pub preflight_fail : Option (List ℕ × ℕ)
  pub ekf2_started_at : Option ℕ

unfoldable pub new : Px4HealthMonitor
new = record { health = none; preflight_fail = none; ekf2_started_at = none }

unfoldable pub record_sys_status : Bool → ℕ → Px4HealthMonitor → Px4HealthMonitor
record_sys_status can_arm at m = record m {
  health = some (record { can_arm = can_arm; received_at = at });
}

unfoldable pub record_statustext : List ℕ → ℕ → Px4HealthMonitor → Px4HealthMonitor
record_statustext text at m =
    if starts_with preflight_fail_prefix text
    then record m { preflight_fail = some (text, at) }
    else m

-- The latest refusal, when it came at `since` or later.
abbrev text_since : ℕ → Option (List ℕ × ℕ) → Option (List ℕ)
text_since since none = none
text_since since (some (text, at)) = if leb since at then some text else none

unfoldable pub preflight_fail_since : ℕ → Px4HealthMonitor → Option (List ℕ)
preflight_fail_since since m = text_since since m.preflight_fail

unfoldable pub mark_ekf2_started : ℕ → Px4HealthMonitor → Px4HealthMonitor
mark_ekf2_started at m = record m { ekf2_started_at = some at }

-- The messages that are read: the health bits of a SYS_STATUS, the bytes of a STATUSTEXT.
pub data MavMessage : Type 0 where
  sys_status : ℕ → MavMessage
  statustext : List ℕ → MavMessage
  other : MavMessage

-- `trim_end_matches('\0')`.
unfoldable pub trim_end_nul : List ℕ → List ℕ
trim_end_nul [] = []
trim_end_nul (b ∷ text) =
    let rest = trim_end_nul text in if b == 0 && length rest == 0 then [] else b ∷ rest

module _ (prearm_check : ℕ → Bool) (is_utf8 : List ℕ → Bool) where
  abbrev text_of : List ℕ → List ℕ
  text_of bytes = if is_utf8 bytes then trim_end_nul bytes else []

  unfoldable pub observe : MavMessage → ℕ → Px4HealthMonitor → Px4HealthMonitor
  observe (sys_status bits) at m = record_sys_status (prearm_check bits) at m
  observe (statustext bytes) at m = record_statustext (text_of bytes) at m
  observe other at m = m
