-- ===== src/Health.antt =====
-- The health of the timebase: `Health` of crates/simulation/src/timebase.rs, its wire form
-- `TimebaseHealth` of crates/protocol/src/lib.rs, and their severity ranks.
use hitl_daemon.Base.{ℕ, Bool, true, false}

pub data Health : Type 0 where
  ok degraded faulted : Health

pub data TimebaseHealth : Type 0 where
  ok degraded faulted : TimebaseHealth

unfoldable pub from_health : Health → TimebaseHealth
from_health Health.ok = TimebaseHealth.ok
from_health Health.degraded = TimebaseHealth.degraded
from_health Health.faulted = TimebaseHealth.faulted

-- `severity_rank` of crates/simulation/src/loop_runner.rs.
unfoldable pub severity_rank : Health → ℕ
severity_rank Health.ok = 0
severity_rank Health.degraded = 1
severity_rank Health.faulted = 2

-- `severity_rank` of src/timebase_cli.rs.
unfoldable pub wire_rank : TimebaseHealth → ℕ
wire_rank TimebaseHealth.ok = 0
wire_rank TimebaseHealth.degraded = 1
wire_rank TimebaseHealth.faulted = 2

unfoldable pub is_ok : Health → Bool
is_ok Health.ok = true
is_ok _ = false

unfoldable pub is_faulted : TimebaseHealth → Bool
is_faulted TimebaseHealth.faulted = true
is_faulted _ = false
