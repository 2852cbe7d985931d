-- ===== src/Annunciator/Tests.antt =====
-- An annunciator that starts at 10 s, and what it says at its windows.
use hitl_daemon.Base.{ℕ, ◌≤◌, ◌≡◌, refl, some, List, [], ◌∷◌, arith}
use hitl_daemon.Health.{TimebaseHealth, wire_rank}
use hitl_daemon.Annunciator.{new, observe, observe_all, count_window, same_health}

-- A fault, then two healthy windows.
abbrev windows : List (TimebaseHealth × ℕ)
windows =
    (TimebaseHealth.faulted, 11000000000)
    ∷ (TimebaseHealth.ok, 13000000000)
    ∷ (TimebaseHealth.ok, 15000000000)
    ∷ []

-- The third healthy window, 6 s after the fault was announced, announces the recovery.
third_window :
    (wire_rank TimebaseHealth.ok ≤ wire_rank (observe_all (new 10000000000) windows).announced)
    × ((observe (observe_all (new 10000000000) windows) TimebaseHealth.ok 17000000000).1
        ≡ some (TimebaseHealth.ok, TimebaseHealth.faulted))
unfolding observe observe_all new wire_rank count_window same_health
third_window = (omega arith, refl)
