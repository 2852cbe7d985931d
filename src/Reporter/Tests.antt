-- ===== src/Reporter/Tests.antt =====
-- A reporter that starts at instant 0, and what it says at its observations.
use hitl_daemon.Base.{ℕ, ◌≤◌, ◌<◌, ◌≡◌, refl, List, [], ◌∷◌, arith}
use hitl_daemon.Health.{Health, severity_rank, is_ok}
use hitl_daemon.Reporter.{TimebaseReporter, new, decide, fault_line, recovered}

first : TimebaseReporter
unfolding new
first = new 0

abbrev observations : List (Health × ℕ)
observations = (Health.faulted, 1000000000) ∷ (Health.ok, 2000000000) ∷ (Health.ok, 7000000000) ∷ []

first_ready :
    (severity_rank first.reported < severity_rank Health.faulted) × (first.last_warning ≤ 0)
unfolding first new severity_rank
first_ready = (omega arith, omega arith)

-- The reporter once a fault is on the log.
alarmed : TimebaseReporter
alarmed = (decide first Health.faulted 1000000000).0

alarmed_ready :
    (severity_rank Health.ok ≤ severity_rank alarmed.reported)
    × ((decide alarmed Health.ok 7000000000).1 ≡ recovered Health.faulted)
unfolding alarmed decide first new severity_rank is_ok fault_line
alarmed_ready = (omega arith, refl)
