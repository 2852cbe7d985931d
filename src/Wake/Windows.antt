-- ===== src/Wake/Windows.antt =====
-- The counters of a window.
use hitl_daemon.Base.{ℕ, ◌+◌, ◌*◌, ◌/◌, ◌≤◌, max, Option, none, some, List, [], ◌∷◌, arith}
use hitl_daemon.Base.Floats.{F64}
use hitl_daemon.Wake.{TimebaseWindow, record_iteration, restart}
use hitl_daemon.Verdict.{WindowSample, verdict}

-- Only iterations that slept carry lateness, none of them more than the largest.
pub record IsWindow (w : TimebaseWindow) : Type 0 where
  pub slept : w.wake_late_samples ≤ w.iterations
  pub bounded : w.wake_late_total_us ≤ w.wake_late_max_us * w.wake_late_samples

product_mono : (t m n late : ℕ) → t ≤ m * n → t + late ≤ max m late * (n + 1)
product_mono t m n late h = grind arith

pub record_iteration-IsWindow :
    (w : TimebaseWindow) (steps : ℕ) (late : Option ℕ) (overrun : ℕ)
    → IsWindow w
    → IsWindow (record_iteration w steps late overrun)
unfolding record_iteration
record_iteration-IsWindow w steps none overrun v = record {
  slept = omega (arith, v.slept);
  bounded = v.bounded;
}
record_iteration-IsWindow w steps (some late) overrun v = record {
  slept = omega (arith, v.slept);
  bounded = product_mono w.wake_late_total_us w.wake_late_max_us w.wake_late_samples late v.bounded;
}

pub restart-IsWindow : (drops discarded gaps : ℕ) → IsWindow (restart drops discarded gaps)
unfolding restart
restart-IsWindow drops discarded gaps = record { slept = omega arith; bounded = omega arith }

-- The sample that `roll_up_timebase_window` makes of a window.
unfoldable pub sample_of : TimebaseWindow → ℕ → ℕ → ℕ → ℕ → WindowSample
sample_of w wall_us target_hz discarded_us gap_count = record {
  wall_us = wall_us;
  iterations = w.iterations;
  steps = w.steps;
  target_hz = target_hz;
  wake_late_total_us = w.wake_late_total_us;
  wake_late_samples = w.wake_late_samples;
  wake_late_max_us = w.wake_late_max_us;
  overrun_us = w.overrun_us;
  discarded_us = discarded_us;
  gap_count = gap_count;
}

average-le : (t m n : ℕ) → t ≤ m * n → 1 ≤ n → t / n ≤ m
average-le t m n h p = grind arith

-- The iterations of a window, the latest first: sub-steps, lateness of a wake, overrun.
pub record_iterations : TimebaseWindow → List (ℕ × Option ℕ × ℕ) → TimebaseWindow
record_iterations w [] = w
record_iterations w ((steps, late, overrun) ∷ rest) =
    record_iteration (record_iterations w rest) steps late overrun

record_iterations-IsWindow :
    (its : List (ℕ × Option ℕ × ℕ)) (w : TimebaseWindow)
    → IsWindow w
    → IsWindow (record_iterations w its)
unfolding record_iterations
record_iterations-IsWindow [] w v = v
record_iterations-IsWindow ((steps, late, overrun) ∷ rest) w v =
    record_iteration-IsWindow (record_iterations w rest) steps late overrun
      (record_iterations-IsWindow rest w v)

-- For any iterations of a window the published mean lateness is at most the published maximum.
pub verdict_mean-le_max :
    (f : F64) (drops discarded gaps : ℕ) (its : List (ℕ × Option ℕ × ℕ)) (wall hz lost count : ℕ)
    → let v =
        verdict f
          (sample_of (record_iterations (restart drops discarded gaps) its) wall hz lost count) in
      v.wake_late_avg_us ≤ v.wake_late_max_us
unfolding verdict sample_of
verdict_mean-le_max f drops discarded gaps its wall hz lost count =
    let w = record_iterations (restart drops discarded gaps) its in
    let v =
      record_iterations-IsWindow its (restart drops discarded gaps)
        (restart-IsWindow drops discarded gaps) in
    ground (arith, average-le w.wake_late_total_us w.wake_late_max_us w.wake_late_samples v.bounded)
