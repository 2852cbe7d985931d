-- ===== src/Board/ReadyLaws.antt =====
-- What the readiness wait rests its answer on, and that it ends.
use hitl_daemon.Base.{
  ℕ, Bool, true, false, not, ◌&&◌, ◌||◌, ◌≤◌, ◌<◌, ◌≡◌, ◌⊎◌, inl, inr, refl, leb, if◌then◌else◌,
  Option, none, some, List, [], ◌∷◌, Result, ok, err, arith, Bool-cases, subst, sym,
}
use hitl_daemon.Board.Monitor.{Px4Health, Px4HealthMonitor, preflight_fail_since}
use hitl_daemon.Board.Ready.{
  Px4Timing, Px4HealthReport, healthy, unknown, not_applicable, NotReady, preflight_fail, no_report,
  health_channel_closed, Turn, turn, closed, Ekf2Restart, hears, passes, reason, ready_after,
  absent_by, give_up_at, wait_turns, wait_for_px4_ready,
}

module _ (restart : Ekf2Restart) (timing : Px4Timing) where
  -- A passing verdict that came late enough.
  abbrev Passing : Px4HealthMonitor → Type 0
  Passing m =
      (h : Px4Health) × (m.health ≡ some h)
      × (h.can_arm ≡ true)
      × (ready_after restart timing ≤ h.received_at)

  -- What one turn must show for an answer.
  abbrev Grounds : Result NotReady Px4HealthReport → Px4HealthMonitor → ℕ → Type 0
  Grounds (ok healthy) m now = Passing m
  Grounds (ok unknown) m now =
      (hears restart.confirmed_at m.health ≡ false) × (absent_by restart timing ≤ now)
  Grounds (ok not_applicable) m now = ⊥
  Grounds (err (preflight_fail text)) m now =
      (give_up_at restart timing ≤ now)
      × (passes (ready_after restart timing) m.health ≡ false)
      × (preflight_fail_since restart.began_at m ≡ some text)
  Grounds (err no_report) m now =
      (give_up_at restart timing ≤ now)
      × (passes (ready_after restart timing) m.health ≡ false)
      × (preflight_fail_since restart.began_at m ≡ none)
  Grounds (err health_channel_closed) m now = ⊥

  abbrev Unheard : Result NotReady Px4HealthReport → Px4HealthMonitor → Type 0
  Unheard (ok unknown) m = hears restart.confirmed_at m.health ≡ false
  Unheard r m = Unit {0}

  Unheard-answer :
      (r : Result NotReady Px4HealthReport) (m : Px4HealthMonitor)
      → (r ≡ ok unknown → hears restart.confirmed_at m.health ≡ false)
      → Unheard r m
  Unheard-answer (ok unknown) m f = f refl
  Unheard-answer (ok healthy) m f = tt
  Unheard-answer (ok not_applicable) m f = tt
  Unheard-answer (err why) m f = tt

  -- A turn that leaves the question open: no passing verdict, and time left.
  abbrev Open : Result NotReady Px4HealthReport → Px4HealthMonitor → ℕ → Type 0
  Open r m now =
      (passes (ready_after restart timing) m.health ≡ false)
      × (now < give_up_at restart timing)
      × Unheard r m

  -- The answer has its grounds at one turn, and those before left the question open.
  abbrev pub Decided : Result NotReady Px4HealthReport → List Turn → Type 0
  Decided r [] = ⊥
  Decided r (closed ∷ turns) = r ≡ err health_channel_closed
  Decided r (turn m now ∷ turns) = Grounds r m now ⊎ (Open r m now × Decided r turns)

  -- Until the answer nothing was heard, where the answer is that nothing was.
  abbrev Silent : Bool → Result NotReady Px4HealthReport → Type 0
  Silent heard r = r ≡ ok unknown → heard ≡ false

  passes-Passing :
      (m : Px4HealthMonitor) (o : Option Px4Health)
      → m.health ≡ o
      → passes (ready_after restart timing) o ≡ true
      → Passing m
  passes-Passing m none e h = absurd (cc h)
  passes-Passing m (some v) e h = (v, e, ground arith, ground arith)

  gives_up-Grounds :
      (m : Px4HealthMonitor) (now : ℕ) (o : Option (List ℕ))
      → preflight_fail_since restart.began_at m ≡ o
      → give_up_at restart timing ≤ now
      → passes (ready_after restart timing) m.health ≡ false
      → Grounds (err (reason o)) m now
  gives_up-Grounds m now none e late fails = (late, fails, e)
  gives_up-Grounds m now (some text) e late fails = (late, fails, e)

  or_false : (a b : Bool) → (a || b) ≡ false → (a ≡ false) × (b ≡ false)
  or_false true b h = absurd (cc h)
  or_false false b h = (refl, h)

  some_eq : {A : Type 0} (a b : A) → some a ≡ some b → a ≡ b
  some_eq a b h = cc h

  -- An answer that is given at this turn.
  settled :
      (heard : Bool) (m : Px4HealthMonitor) (now : ℕ) (turns : List Turn)
      (given r : Result NotReady Px4HealthReport)
      → some given ≡ some r
      → Grounds given m now
      → Silent heard given
      → Decided r (turn m now ∷ turns) × Silent heard r
  settled heard m now turns given r e g silent =
      subst (λ q. Decided q (turn m now ∷ turns) × Silent heard q) (some_eq given r e)
        (inl g, silent)

  wait_turns-Decided :
      (heard : Bool) (turns : List Turn) (r : Result NotReady Px4HealthReport)
      → wait_turns restart timing heard turns ≡ some r
      → Decided r turns × Silent heard r
  unfolding wait_turns
  wait_turns-Decided heard [] r e = absurd (cc e)
  wait_turns-Decided heard (closed ∷ turns) r e =
      (sym (some_eq _ r e), λ q. absurd (cc (some_eq _ r e, q)))
  wait_turns-Decided heard (turn m now ∷ turns) r e =
      let known = heard || hears restart.confirmed_at m.health in
      elim (Bool-cases (passes (ready_after restart timing) m.health)) [
        | inl p ↦
            settled heard m now turns (ok healthy) r (rw p at e) (passes-Passing m m.health refl p)
              (λ q. absurd (cc q))
        | inr p ↦
            let e1 = rw p at e in
            elim (Bool-cases (not known && leb (absent_by restart timing) now)) [
              | inl q ↦
                  let deaf =
                    or_false heard (hears restart.confirmed_at m.health) (ground (arith, q)) in
                  settled heard m now turns (ok unknown) r (rw q at e1) (deaf.1, ground (arith, q))
                    (λ u. deaf.0)
              | inr q ↦
                  let e2 = rw q at e1 in
                  elim (Bool-cases (leb (give_up_at restart timing) now)) [
                    | inl l ↦
                        settled heard m now turns
                          (err (reason (preflight_fail_since restart.began_at m))) r (rw l at e2)
                          (gives_up-Grounds m now (preflight_fail_since restart.began_at m) refl
                            (ground (arith, l)) p)
                          (λ u. absurd (cc u))
                    | inr l ↦
                        let ih = wait_turns-Decided known turns r (rw l at e2) in
                        (
                          inr (
                            (
                              p,
                              ground (arith, l),
                              Unheard-answer r m (λ u.
                                  (or_false heard (hears restart.confirmed_at m.health)
                                    (ih.1 u)).1),
                            ),
                            ih.0,
                          ),
                          λ u. (or_false heard (hears restart.confirmed_at m.health) (ih.1 u)).0,
                        )
                  ]
            ]
      ]

  pub wait_for_px4_ready-Decided :
      (turns : List Turn) (r : Result NotReady Px4HealthReport)
      → wait_for_px4_ready restart timing turns ≡ some r
      → Decided r turns
  unfolding wait_for_px4_ready
  wait_for_px4_ready-Decided turns r e = (wait_turns-Decided false turns r e).0

  -- The channel closes, or a turn comes at the deadline or later.
  abbrev pub Reaches : List Turn → Type 0
  Reaches [] = ⊥
  Reaches (closed ∷ turns) = Unit {0}
  Reaches (turn m now ∷ turns) = (give_up_at restart timing ≤ now) ⊎ Reaches turns

  abbrev Returns : Option (Result NotReady Px4HealthReport) → Type 0
  Returns o = (r : Result NotReady Px4HealthReport) × (o ≡ some r)

  -- An answer at this turn, or from the turns behind it while there is time left.
  Returns-turn :
      (a b c : Bool) (x y z : Result NotReady Px4HealthReport)
      (o : Option (Result NotReady Px4HealthReport))
      → (c ≡ false → Returns o)
      → Returns (if a then some x else if b then some y else if c then some z else o)
  Returns-turn true b c x y z o h = (x, refl)
  Returns-turn false true c x y z o h = (y, refl)
  Returns-turn false false true x y z o h = (z, refl)
  Returns-turn false false false x y z o h = h refl

  later :
      (now : ℕ) (turns : List Turn)
      → (give_up_at restart timing ≤ now) ⊎ Reaches turns
      → leb (give_up_at restart timing) now ≡ false
      → Reaches turns
  later now turns (inl late) early = absurd (ground (arith, early))
  later now turns (inr h) early = h

  wait_turns-Returns :
      (heard : Bool) (turns : List Turn)
      → Reaches turns
      → Returns (wait_turns restart timing heard turns)
  unfolding wait_turns
  wait_turns-Returns heard [] h = absurd h
  wait_turns-Returns heard (closed ∷ turns) h = (_, refl)
  wait_turns-Returns heard (turn m now ∷ turns) h =
      let known = heard || hears restart.confirmed_at m.health in
      Returns-turn (passes (ready_after restart timing) m.health)
        (not known && leb (absent_by restart timing) now) (leb (give_up_at restart timing) now)
        (ok healthy) (ok unknown) (err (reason (preflight_fail_since restart.began_at m)))
        (wait_turns restart timing known turns)
        (λ early. wait_turns-Returns known turns (later now turns h early))

  pub wait_for_px4_ready-Returns :
      (turns : List Turn) → Reaches turns → Returns (wait_for_px4_ready restart timing turns)
  unfolding wait_for_px4_ready
  wait_for_px4_ready-Returns turns h = wait_turns-Returns false turns h
