-- ===== src/Timebase/Inv.antt =====
-- The invariant of the planner.
use hitl_daemon.Base.{
  ℕ, ◌+◌, ◌-◌, ◌*◌, ◌≤◌, ◌<◌, ◌≡◌, ◌⊎◌, inl, inr, refl, min, true, false, arith, dec_le, u32_max,
  u64_max,
}
use hitl_daemon.Timebase.{Timebase, new, decide, apply, plan, identity_holds}
use hitl_daemon.Timebase.Decide.{IsConfigured, decide_steps, decide-cases}

-- The clock is the steps taken and the time discarded, or the `u64` clock is full.
abbrev pub Accounted : Timebase → Type 0
Accounted tb =
    (tb.steps_done * tb.step_us + tb.discarded_us ≡ tb.sim_us)
    ⊎ ((tb.sim_us ≡ u64_max) × (u64_max < tb.steps_done * tb.step_us + tb.discarded_us))

-- The session is invalid exactly after a gap, and time is lost in a gap only.
abbrev pub Latched : Timebase → Type 0
Latched tb =
    (tb.session_invalid ≡ true) × (0 < tb.gap_count)
    ⊎ (tb.session_invalid ≡ false)
      × (tb.gap_count ≡ 0)
      × (tb.discarded_us ≡ 0)
      × (tb.max_gap_us ≡ 0)

pub record Inv (tb : Timebase) : Type 0 where
  pub configured : IsConfigured tb
  pub sim_fits : tb.sim_us ≤ u64_max
  pub discarded-le_sim : tb.discarded_us ≤ tb.sim_us
  pub accounted : Accounted tb
  pub latched : Latched tb

pub new-Inv :
    (step_us gap_threshold_us max_catchup_steps : ℕ)
    → step_us ≤ u64_max
    → max_catchup_steps ≤ u32_max
    → Inv (new step_us gap_threshold_us max_catchup_steps)
unfolding new
new-Inv s g m hs hm = ground arith

mul-ge : (n s : ℕ) → 1 ≤ s → n ≤ n * s
mul-ge n s h = grind arith

mul-distrib : (a b s : ℕ) → (a + b) * s ≡ a * s + b * s
mul-distrib a b s = omega arith

-- The accounting of one call, over the products: the clock moves by `ns + lost`, up to its end.
accounting :
    (total ds ns lost sim disc : ℕ)
    → 1 ≤ ns
    → disc ≤ sim
    → sim ≤ u64_max
    → (ds + disc ≡ sim) ⊎ ((sim ≡ u64_max) × (u64_max < ds + disc))
    → (total ≡ ds + ns) ⊎ ((u64_max ≤ total) × (u64_max < ds + ns))
    → let sim' = min (sim + min (min ns u64_max + lost) u64_max) u64_max in
      let sum = total + min (disc + min lost (sim' - sim)) u64_max in
      (sum ≡ sim') ⊎ ((sim' ≡ u64_max) × (u64_max < sum))
accounting total ds ns lost sim disc q r f (inl e) (inl t) = grind arith
accounting total ds ns lost sim disc q r f (inl e) (inr t) = grind arith
accounting total ds ns lost sim disc q r f (inr e) (inl t) = grind arith
accounting total ds ns lost sim disc q r f (inr e) (inr t) = grind arith

-- A step count that saturates is at least the clock's end.
counted :
    (step done n : ℕ)
    → 1 ≤ step
    → let total = min (done + n) u64_max * step in
      (total ≡ done * step + n * step) ⊎ ((u64_max ≤ total) × (u64_max < done * step + n * step))
counted step done n h = elim (dec_le (done + n) u64_max) [
  | yes p ↦ let e : min (done + n) u64_max ≡ done + n = omega arith in inl (rw e (omega arith))
  | no p ↦
      let e : min (done + n) u64_max ≡ u64_max = omega arith in
      inr (rw e (omega arith), omega (arith, mul-ge done step h, mul-ge n step h))
]

plan-Accounted : (tb : Timebase) (wall : ℕ) → Inv tb → Accounted (plan tb wall).0
unfolding plan apply
plan-Accounted tb wall v =
    let n = (decide tb wall).steps in
    let b = decide_steps tb wall v.configured in
    let pos = mul-ge n tb.step_us v.configured.step_pos in
    accounting (min (tb.steps_done + n) u64_max * tb.step_us) (tb.steps_done * tb.step_us)
      (n * tb.step_us) (decide tb wall).discarded_us tb.sim_us tb.discarded_us (omega arith)
      v.discarded-le_sim v.sim_fits v.accounted
      (counted tb.step_us tb.steps_done n v.configured.step_pos)

plan-Latched : (tb : Timebase) (wall : ℕ) → wall ≤ u64_max → Inv tb → Latched (plan tb wall).0
unfolding plan apply
plan-Latched tb wall h v = elim (decide-cases tb wall v.configured h) [
  | inl g ↦ rw g.gap (inl (refl, omega arith))
  | inr s ↦ elim v.latched [
    | inl old ↦ rw s.no_gap (inl old)
    | inr new ↦ rw (s.no_gap, s.kept) (inr (new.0, new.1, omega arith, new.3))
  ]
]

-- A call with a u64 wall reading keeps the planner's counters in order.
pub plan-Inv : (tb : Timebase) (wall : ℕ) → wall ≤ u64_max → Inv tb → Inv (plan tb wall).0
unfolding plan apply
plan-Inv tb wall h v = record {
  configured = record {
    step_pos = v.configured.step_pos;
    step_fits = v.configured.step_fits;
    catchup_pos = v.configured.catchup_pos;
    catchup_fits = v.configured.catchup_fits;
  };
  sim_fits = omega arith;
  discarded-le_sim = omega (arith, v.discarded-le_sim);
  accounted = plan-Accounted tb wall v;
  latched = plan-Latched tb wall h v;
}

-- The `debug_assert!` of `apply` never fires.
pub Inv-identity_holds : (tb : Timebase) → Inv tb → identity_holds tb ≡ true
unfolding identity_holds
Inv-identity_holds tb v = ground arith
