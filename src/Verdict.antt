-- ===== src/Verdict.antt =====
-- A window's verdict: `timebase_health` and `WindowSample::verdict` of
-- crates/simulation/src/timebase.rs. The floating-point arithmetic is a parameter.
pub mod Laws
pub mod Tests
use hitl_daemon.Base.{ℕ, ◌/◌, Bool, true, false, not, ltb, if◌then◌else◌}
use hitl_daemon.Base.Floats.{F64}
use hitl_daemon.Health.{Health}
use hitl_daemon.Timebase.{saturate_u32}

module _ (f : F64) where
  open f use {F, of_nat, decimal, nan, div, ge, gt, is_finite}

  abbrev pub health_ok_ratio : F
  health_ok_ratio = decimal 99 2

  abbrev pub health_faulted_ratio : F
  health_faulted_ratio = decimal 90 2

  unfoldable pub timebase_health : F → ℕ → Health
  timebase_health realised_ratio discarded_us =
      if ltb 0 discarded_us
      then Health.faulted
      else if not (is_finite realised_ratio)
      then Health.ok
      else if ge realised_ratio health_ok_ratio
      then Health.ok
      else if ge realised_ratio health_faulted_ratio
      then Health.degraded
      else Health.faulted

-- The drift, a signed number that the verdict only passes on, is left out.
pub record WindowSample : Type 0 where
  pub wall_us : ℕ
  pub iterations : ℕ
  pub steps : ℕ
  pub target_hz : ℕ
  pub wake_late_total_us : ℕ
  pub wake_late_samples : ℕ
  pub wake_late_max_us : ℕ
  pub overrun_us : ℕ
  pub discarded_us : ℕ
  pub gap_count : ℕ

pub record WindowVerdict (F : Type 0) : Type 0 where
  pub health : Health
  pub iterations_per_sec : F
  pub steps_per_sec : F
  pub realised : F
  pub wake_late_avg_us : ℕ
  pub wake_late_max_us : ℕ
  pub deadline_overrun_us : ℕ
  pub discarded_ms : ℕ
  pub gap_count : ℕ

module _ (f : F64) where
  open f use {F, of_nat, decimal, nan, div, ge, gt, is_finite}

  rate : F → ℕ → F
  rate secs n = if gt secs (decimal 0 0) then div (of_nat n) secs else nan

  unfoldable pub verdict : WindowSample → WindowVerdict F
  unfolding rate timebase_health
  verdict w =
      let secs = div (of_nat w.wall_us) (decimal 1000000 0) in
      let iterations_per_sec = rate secs w.iterations in
      let realised =
        if ltb 0 w.target_hz then div iterations_per_sec (of_nat w.target_hz) else nan in
      record {
        health = timebase_health f realised w.discarded_us;
        iterations_per_sec = iterations_per_sec;
        steps_per_sec = rate secs w.steps;
        realised = realised;
        wake_late_avg_us =
            if ltb 0 w.wake_late_samples
            then saturate_u32 (w.wake_late_total_us / w.wake_late_samples)
            else 0;
        wake_late_max_us = saturate_u32 w.wake_late_max_us;
        deadline_overrun_us = saturate_u32 w.overrun_us;
        discarded_ms = saturate_u32 (w.discarded_us / 1000);
        gap_count = w.gap_count;
      }
