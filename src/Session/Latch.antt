-- ===== src/Session/Latch.antt =====
-- The arming gate, the overlay line and the published figures over a session.
use hitl_daemon.Base.{
  ◌==◌, not, ℕ, ◌/◌, ◌≤◌, ◌<◌, ◌≡◌, ◌⊎◌, inl, inr, refl, sym, ◌∙◌, Bool, true, false, if◌then◌else◌,
  List, [], ◌∷◌, arith, u64_max,
}
use hitl_daemon.Health.{Health, TimebaseHealth, from_health, severity_rank, wire_rank, is_faulted}
use hitl_daemon.Stats.{SimulationStats, stats_after_reconfigure, default_stats}
use hitl_daemon.Gate.{
  refuses, timebase_arming_gate, session_is_compromised, annunciation, severity_info,
}
use hitl_daemon.Timebase.{Timebase, plan, apply, new, budget_steps_at}
use hitl_daemon.Timebase.Inv.{Inv, plan-Inv, new-Inv}
use hitl_daemon.Session.{
  Session, Verdict, Event, iteration, window, reconfigure, roll_up, step, run, start,
}

-- The arming gate refuses exactly the sessions that the overlay calls compromised, except in
-- flight, where it never refuses.
pub gate-compromised :
    (stats : SimulationStats) (in_flight : Bool)
    → refuses (timebase_arming_gate stats in_flight)
      ≡ (if in_flight then false else session_is_compromised stats)
unfolding timebase_arming_gate session_is_compromised refuses
gate-compromised stats in_flight = ground arith

-- With the cadence healthy, the overlay line has the severity of a plain recovery exactly where
-- the gate would not refuse the vehicle on the ground.
pub annunciation-gate :
    (stats : SimulationStats) (previous : TimebaseHealth)
    → stats.timebase_health ≡ TimebaseHealth.ok
    → ((annunciation stats previous).0 == severity_info)
      ≡ not (refuses (timebase_arming_gate stats false))
unfolding annunciation timebase_arming_gate session_is_compromised refuses
annunciation-gate stats previous h = ground arith

-- The published figures never run ahead of the session that they report.
pub record IsLatched (s : Session) : Type 0 where
  pub planned : Inv s.tb
  pub lost : s.stats.timebase_discarded_ms ≤ s.tb.discarded_us / 1000
  pub invalid : (s.stats.session_invalid ≡ false) ⊎ (s.tb.session_invalid ≡ true)
  pub worst : wire_rank s.stats.timebase_worst_health ≤ severity_rank s.worst_health

-- The wall times that an event carries are `u64` values.
abbrev pub Fits : Event → Type 0
Fits (iteration wall) = wall ≤ u64_max
Fits (window v) = Unit {0}
Fits reconfigure = Unit {0}

abbrev pub AllFit : List Event → Type 0
AllFit [] = Unit {0}
AllFit (e ∷ es) = Fits e × AllFit es

pub start-IsLatched : (step_us : ℕ) → step_us ≤ u64_max → IsLatched (start step_us)
unfolding start default_stats new wire_rank severity_rank budget_steps_at
start-IsLatched step_us h = record {
  planned = new-Inv step_us _ _ h (omega arith);
  lost = omega arith;
  invalid = inl refl;
  worst = omega arith;
}

plan_grows :
    (tb : Timebase) (wall : ℕ)
    → Inv tb
    → (tb.discarded_us ≤ (plan tb wall).0.discarded_us)
      × (tb.session_invalid ≡ true → (plan tb wall).0.session_invalid ≡ true)
unfolding plan apply
plan_grows tb wall v = (omega (arith, v.discarded-le_sim, v.sim_fits), λ e. ground arith)

rank-from_health : (h : Health) → wire_rank (from_health h) ≡ severity_rank h
unfolding wire_rank from_health severity_rank
rank-from_health Health.ok = refl
rank-from_health Health.degraded = refl
rank-from_health Health.faulted = refl

false_or_true : (b : Bool) → (b ≡ false) ⊎ (b ≡ true)
false_or_true true = inr refl
false_or_true false = inl refl

pub step-IsLatched : (s : Session) (e : Event) → Fits e → IsLatched s → IsLatched (step s e)
unfolding step stats_after_reconfigure
step-IsLatched s (iteration wall) f l =
    let g = plan_grows s.tb wall l.planned in
    record {
      planned = plan-Inv s.tb wall f l.planned;
      lost = omega (arith, l.lost, g.0);
      invalid = elim l.invalid [ inl q ↦ inl q | inr q ↦ inr (g.1 q) ];
      worst = l.worst;
    }
step-IsLatched s (window v) f l = record {
  planned = l.planned;
  lost = omega arith;
  invalid = false_or_true s.tb.session_invalid;
  worst = omega (arith, rank-from_health);
}
step-IsLatched s reconfigure f l = record {
  planned = l.planned;
  lost = l.lost;
  invalid = l.invalid;
  worst = l.worst;
}

-- Why a session is compromised.
abbrev Reasons : SimulationStats → Type 0
Reasons stats =
    (stats.session_invalid ≡ true)
    ⊎ (0 < stats.timebase_discarded_ms)
    ⊎ (wire_rank stats.timebase_worst_health ≡ 2)

compromised-Reasons :
    (stats : SimulationStats) → session_is_compromised stats ≡ true → Reasons stats
unfolding session_is_compromised is_faulted wire_rank
compromised-Reasons stats h = ground arith

Reasons-compromised :
    (stats : SimulationStats) → Reasons stats → session_is_compromised stats ≡ true
unfolding session_is_compromised is_faulted wire_rank
Reasons-compromised stats h = ground arith

-- A roll-up takes the rank of the worse of the verdict and what the session had.
worst_rank :
    (s : Session) (v : Verdict)
    → (wire_rank (roll_up s v).stats.timebase_worst_health ≤ 2)
      × (severity_rank s.worst_health ≤ wire_rank (roll_up s v).stats.timebase_worst_health)
      × (severity_rank v.health ≤ wire_rank (roll_up s v).stats.timebase_worst_health)
unfolding roll_up wire_rank severity_rank from_health
worst_rank s v = ground arith

roll_up-Reasons :
    (s : Session) (v : Verdict) → IsLatched s → Reasons s.stats → Reasons (roll_up s v).stats
unfolding roll_up
roll_up-Reasons s v l (inl e) = let was = l.invalid in inl (ground arith)
roll_up-Reasons s v l (inr (inl e)) = inr (inl (omega (arith, l.lost)))
roll_up-Reasons s v l (inr (inr e)) =
    let w = worst_rank s v in inr (inr (omega (arith, w, l.worst)))

step-Reasons : (s : Session) (e : Event) → IsLatched s → Reasons s.stats → Reasons (step s e).stats
unfolding step stats_after_reconfigure
step-Reasons s (iteration wall) l r = r
step-Reasons s (window v) l r = roll_up-Reasons s v l r
step-Reasons s reconfigure l r = r

run-Reasons :
    (es : List Event) (s : Session)
    → AllFit es
    → IsLatched s
    → Reasons s.stats
    → Reasons (run s es).stats
unfolding run
run-Reasons [] s f l r = r
run-Reasons (e ∷ es) s f l r =
    run-Reasons es (step s e) f.1 (step-IsLatched s e f.0 l) (step-Reasons s e l r)

refuses-Reasons :
    (stats : SimulationStats) → Reasons stats → refuses (timebase_arming_gate stats false) ≡ true
refuses-Reasons stats r = gate-compromised stats false ∙ Reasons-compromised stats r

-- From a session whose planner and published figures are in order: once the gate refuses to arm it
-- on the ground, it refuses again after any further iterations with u64 wall readings, windows and
-- reconfigurations.
pub refusal_latched :
    (es : List Event) (s : Session)
    → AllFit es
    → IsLatched s
    → refuses (timebase_arming_gate s.stats false) ≡ true
    → refuses (timebase_arming_gate (run s es).stats false) ≡ true
refusal_latched es s f l h =
    let c = sym (gate-compromised s.stats false) ∙ h in
    refuses-Reasons (run s es).stats (run-Reasons es s f l (compromised-Reasons s.stats c))

window-Reasons :
    (s : Session) (v : Verdict)
    → (s.tb.session_invalid ≡ true) ⊎ (v.health ≡ Health.faulted)
    → Reasons (step s (window v)).stats
unfolding step roll_up severity_rank
window-Reasons s v (inl e) = inl e
window-Reasons s v (inr e) =
    let w = worst_rank s v in
    let r : severity_rank v.health ≡ 2 = rw e in inr (inr (omega (arith, w, r)))

-- From a session whose planner and published figures are in order: if its clock has seen a gap, or
-- the closing window's verdict is faulted, every arming on the ground is refused from the end of
-- that window on, whatever iterations with u64 wall readings, windows and reconfigurations follow.
pub gap_refuses :
    (s : Session) (v : Verdict) (es : List Event)
    → AllFit es
    → IsLatched s
    → (s.tb.session_invalid ≡ true) ⊎ (v.health ≡ Health.faulted)
    → refuses (timebase_arming_gate (run (step s (window v)) es).stats false) ≡ true
gap_refuses s v es f l h =
    refuses-Reasons (run (step s (window v)) es).stats (
      run-Reasons es (step s (window v)) f (step-IsLatched s (window v) tt l)
        (window-Reasons s v h))
