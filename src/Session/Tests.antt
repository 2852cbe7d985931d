-- ===== src/Session/Tests.antt =====
-- Sessions of the loop at 400 Hz, and the theorems at them.
use hitl_daemon.Base.{◌≡◌, refl, true, false, if◌then◌else◌, List, [], ◌∷◌, arith}
use hitl_daemon.Health.{Health}
use hitl_daemon.Stats.{default_stats}
use hitl_daemon.Gate.{refuses, timebase_arming_gate, session_is_compromised}
use hitl_daemon.Timebase.{plan, decide, apply, new}
use hitl_daemon.Session.{Session, Verdict, Event, iteration, window, reconfigure, step, run, start}
use hitl_daemon.Session.Latch.{
  gate-compromised, IsLatched, AllFit, start-IsLatched, step-IsLatched, refusal_latched,
}

abbrev on_time : Verdict
on_time = record {
  health = Health.ok;
  wake_late_avg_us = 80;
  deadline_overrun_us = 0;
  wake_late_max_us = 400;
  wake_late_p99_us = 300;
}

-- A stall of 31 ms in the first iteration.
abbrev stalled : Session
stalled = step (start 2500) (iteration 31000)

stalled-IsLatched : IsLatched stalled
stalled-IsLatched =
    step-IsLatched (start 2500) (iteration 31000) (omega arith) (start-IsLatched 2500 (omega arith))

-- The stall shows, in a window whose cadence is healthy again.
stalled_invalid : stalled.tb.session_invalid ≡ true
unfolding step plan apply decide start new
stalled_invalid = refl

abbrev reported : Session
reported = step stalled (window on_time)

reported_refuses : refuses (timebase_arming_gate reported.stats false) ≡ true
unfolding refuses timebase_arming_gate step plan apply decide start new
reported_refuses = refl

reported-IsLatched : IsLatched reported
reported-IsLatched = step-IsLatched stalled (window on_time) tt stalled-IsLatched

abbrev later : List Event
later = reconfigure ∷ iteration 33500 ∷ window on_time ∷ []

later_fits : AllFit later
later_fits = (tt, (omega arith, (tt, tt)))

refusal_latched_example : refuses (timebase_arming_gate (run reported later).stats false) ≡ true
refusal_latched_example =
    refusal_latched later reported later_fits reported-IsLatched reported_refuses

gate-compromised_example :
    refuses (timebase_arming_gate default_stats false)
    ≡ (if false then false else session_is_compromised default_stats)
gate-compromised_example = gate-compromised default_stats false
