-- ===== src/Verdict/Laws.antt =====
-- The grading of a window against its ratio and its lost time.
use hitl_daemon.Base.{ℕ, ◌≤◌, ◌≡◌, true, arith}
use hitl_daemon.Base.Floats.{F64}
use hitl_daemon.Health.{severity_rank}
use hitl_daemon.Verdict.{timebase_health, health_ok_ratio, health_faulted_ratio}

-- For a finite lower ratio, a higher ratio with no more time discarded never has the worse health.
pub timebase_health-antitone :
    (f : F64) (a b : f.F) (m n : ℕ)
    → f.is_finite b ≡ true
    → f.ge a b ≡ true
    → m ≤ n
    → severity_rank (timebase_health f a m) ≤ severity_rank (timebase_health f b n)
unfolding timebase_health severity_rank
timebase_health-antitone f a b m n fin h le =
    ground (arith, f.ge_trans a b (health_ok_ratio f), f.ge_trans a b (health_faulted_ratio f))
