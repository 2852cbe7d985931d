-- ===== src/Annunciator.antt =====
-- `AnnunciatorPolicy` of src/timebase_cli.rs: when a change of health reaches the person flying.
-- Instants and intervals are nanoseconds.
pub mod Policy
pub mod Tests
use hitl_daemon.Base.{
  ℕ, ◌+◌, ◌-◌, Bool, true, false, ◌&&◌, not, ltb, leb, ◌==◌, if◌then◌else◌, Option, none, some,
  List, [], ◌∷◌, min, u32_max, saturating_add_u32,
}
use hitl_daemon.Health.{TimebaseHealth, wire_rank}

abbrev pub annunciator_min_interval : ℕ
annunciator_min_interval = 5000000000

abbrev pub deescalate_windows : ℕ
deescalate_windows = 3

pub record AnnunciatorPolicy : Type 0 where
  pub announced : TimebaseHealth
  pub candidate : TimebaseHealth
  pub consecutive : ℕ  -- u32
  pub last_sent : ℕ

-- `checked_sub`, with `now` where it fails: an instant below the interval stays as it is.
unfoldable pub new : ℕ → AnnunciatorPolicy
new now = record {
  announced = TimebaseHealth.ok;
  candidate = TimebaseHealth.ok;
  consecutive = 0;
  last_sent = if leb annunciator_min_interval now then now - annunciator_min_interval else now;
}

-- The derived `==`.
same_health : TimebaseHealth → TimebaseHealth → Bool
same_health TimebaseHealth.ok TimebaseHealth.ok = true
same_health TimebaseHealth.degraded TimebaseHealth.degraded = true
same_health TimebaseHealth.faulted TimebaseHealth.faulted = true
same_health _ _ = false

count_window : AnnunciatorPolicy → TimebaseHealth → AnnunciatorPolicy
unfolding same_health
count_window p observed =
    if same_health observed p.candidate
    then record p { consecutive = saturating_add_u32 p.consecutive 1 }
    else record p { candidate = observed; consecutive = 1 }

unfoldable pub observe :
    AnnunciatorPolicy
    → TimebaseHealth
    → ℕ
    → AnnunciatorPolicy × Option (TimebaseHealth × TimebaseHealth)
unfolding count_window wire_rank
observe p observed now =
    let q = count_window p observed in
    let escalating = ltb (wire_rank q.announced) (wire_rank observed) in
    let settled =
      leb deescalate_windows q.consecutive && leb annunciator_min_interval (now - q.last_sent) in
    if same_health observed q.announced
    then (q, none)
    else if not escalating && not settled
    then (q, none)
    else (record q { announced = observed; last_sent = now }, some (observed, q.announced))

-- A session's observations, in order.
unfoldable pub observe_all : AnnunciatorPolicy → List (TimebaseHealth × ℕ) → AnnunciatorPolicy
observe_all p [] = p
observe_all p ((observed, now) ∷ rest) = observe_all (observe p observed now).0 rest
