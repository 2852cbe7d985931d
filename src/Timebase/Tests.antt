-- ===== src/Timebase/Tests.antt =====
-- Runs of the planner, and its theorems at the 400 Hz configuration.
use hitl_daemon.Base.{ℕ, ◌+◌, ◌≤◌, ◌<◌, ◌≡◌, refl, true, List, [], ◌∷◌, arith}
use hitl_daemon.Timebase.{
  Timebase, new, decide, apply, plan, run, steps_for, budget_steps_at, identity_holds,
  integrated_time_us, default_gap_threshold_us, default_max_catchup_steps,
}
use hitl_daemon.Timebase.Inv.{Inv, new-Inv}
use hitl_daemon.Timebase.Pacing.{run_sound, run-Paced, last_wall}

-- 400 Hz.
clock : Timebase
unfolding new
clock = new 2500 default_gap_threshold_us default_max_catchup_steps

clock-Inv : Inv clock
unfolding clock new
clock-Inv = new-Inv 2500 20000 8 (omega arith) (omega arith)

-- The derived cap is the documented constant at 400 Hz, and twice that at 800 Hz.
budget_400 : (budget_steps_at 2500 20000 ≡ 8) × (budget_steps_at 1250 20000 ≡ 16)
unfolding budget_steps_at
budget_400 = (refl, refl)

-- A stall of 31 ms: 20 ms are replayed and 11 ms are lost.
stall_31ms :
    ((plan clock 31000).1.steps ≡ 8)
    × ((plan clock 31000).1.discarded_us ≡ 11000)
    × ((plan clock 31000).0.sim_us ≡ 31000)
unfolding plan decide apply steps_for new clock
stall_31ms = (refl, refl, refl)

-- A gap, two late wakes and one on time.
abbrev session : List ℕ
session = 31000 ∷ 36500 ∷ 42000 ∷ 42500 ∷ []

run_sound_example :
    (identity_holds (run clock session) ≡ true)
    × (clock.sim_us ≤ (run clock session).sim_us)
    × (integrated_time_us clock ≤ integrated_time_us (run clock session))
run_sound_example = run_sound session clock (omega arith) clock-Inv

-- The cadence of a host that wakes every 2935 µs.
abbrev late_wakes : List ℕ
late_wakes = 2935 ∷ 5870 ∷ 8805 ∷ 11740 ∷ []

run-Paced_example :
    ((run clock late_wakes).discarded_us ≡ clock.discarded_us)
    × ((run clock late_wakes).session_invalid ≡ clock.session_invalid)
    × (last_wall 0 late_wakes < (run clock late_wakes).sim_us + clock.step_us)
unfolding new clock
run-Paced_example =
    run-Paced late_wakes 2935 0 clock clock-Inv (omega arith) (omega arith) (omega arith)
      (omega arith) (omega arith)
