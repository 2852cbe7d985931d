-- ===== src/Cadence/Tests.antt =====
-- Tick rates that are used, and the theorems at 400 Hz.
use hitl_daemon.Base.{◌≤◌, ◌<◌, ◌≡◌, refl, ok, err, arith, u64_max}
use hitl_daemon.Timebase.{plan, decide, apply, steps_for, new, Timebase}
use hitl_daemon.Timebase.Inv.{Inv, new-Inv}
use hitl_daemon.Cadence.{validate_tick_rate, uneven, zero_rate}

-- A rate that does not divide the second is refused: at 300 Hz the step is not a whole number of
-- microseconds.
rates :
    (validate_tick_rate 400 ≡ ok 400)
    × (validate_tick_rate 0 ≡ err zero_rate)
    × (validate_tick_rate 300 ≡ err (uneven 3333333 3333000))
unfolding validate_tick_rate
rates = (refl, refl, refl)

clock : Timebase
unfolding new
clock = new 2500 20000 8

clock-Inv : Inv clock
unfolding clock new
clock-Inv = new-Inv 2500 20000 8 (omega arith) (omega arith)

-- A late wake of 10 ms replays four steps.
late_wake : ((plan clock 10000).1.steps ≡ 4) × ((plan clock 10000).0.sim_us ≡ 10000)
unfolding plan decide apply steps_for new clock
late_wake = (refl, refl)

late_wake_fits : ((plan clock 10000).0.sim_us < u64_max) × (2 ≤ (plan clock 10000).1.steps)
late_wake_fits = let (a, b) = late_wake in (omega arith, omega arith)
