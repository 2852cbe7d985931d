-- ===== src/Build/Laws.antt =====
-- What a request changes, and what an answer to it rests on.
use hitl_daemon.Base.{
  Bool, true, false, not, ◌≡◌, ◌⊎◌, inl, inr, refl, sym, if◌then◌else◌, Option, none, some, List,
  ◌∷◌, Result, ok, err, arith,
}
use hitl_daemon.Provision
use hitl_daemon.Terrain.Geo.{Real}
use hitl_daemon.Board.Ready.{Px4HealthReport, not_applicable, NotReady, Ekf2Restart}
use hitl_daemon.Board.Session.{
  Effect, also, FcSession, is_sim_only, RestartError, Done, restart_ekf2, wait_until_ready,
}
use hitl_daemon.Board.ReadyLaws.{Decided, wait_for_px4_ready-Decided}
use hitl_daemon.Board.SessionLaws.{Confirmed, Restarted, restart_ekf2-Restarted}
use hitl_daemon.Build.Push.{Library}
use hitl_daemon.Build.Handler.{
  ConfigStage, restarting_ekf, waiting_for_px4, simulation_unavailable, not_applied, State, World,
  Applied, Out, verdict, after_restart, restart_if, restart_ekf2_and_wait_for_px4, is_applied,
  hand_over,
}

module _ (l : Provision.Env) (lib : Library l.F32) (r : Real) (is_finite : r.F → Bool)
    (neg : r.F → r.F) (C Q : Type 0) where
  abbrev pub S : Type 0
  S = State l lib r is_finite neg C Q

  abbrev pub O : Type 0
  O = Out l lib r is_finite neg C Q

  abbrev pub A : Type 0
  A = Applied l lib r is_finite neg C Q

  -- A later step leaves these parts alone.
  abbrev Same : S → S → Type 0
  Same s t = (t.anchor ≡ s.anchor) × (t.configs ≡ s.configs) × (t.link ≡ s.link)

  module _ (w : World l lib r is_finite neg C Q) where
    abbrev restart_of :
        FcSession → List (Effect ConfigStage) → Done w.board (Result RestartError Ekf2Restart)
    restart_of session flow = restart_ekf2 w.board session (also restarting_ekf ∷ flow)

    -- What PX4's answer rests on, from the flow when the restart begins.
    abbrev pub Grounded : Option FcSession → List (Effect ConfigStage) → Px4HealthReport → Type 0
    Grounded none flow health = health ≡ not_applicable
    Grounded (some session) flow health =
        ((session.has_board ≡ false) × (health ≡ not_applicable))
        ⊎ ((restart : Ekf2Restart) × Confirmed w.board session (also restarting_ekf ∷ flow) restart
              (restart_of session flow).0
            × Decided restart (restart_of session flow).1.timing (ok health)
                (w.board.turns (also waiting_for_px4 ∷ (restart_of session flow).0)))

    -- What the last step leaves.
    abbrev Restart : Option FcSession → (Px4HealthReport → A) → S → O → Type 0
    Restart session applied s out =
        Same s out.0
        × ((a : A)
            → out.1 ≡ some (ok a)
            → (health : Px4HealthReport) × (a ≡ applied health) × Grounded session s.flow health)

    ok_eq :
        {E X : Type 0} (a b : X) → ◌≡◌ {A = Option (Result E X)} (some (ok a)) (some (ok b)) → a ≡ b
    ok_eq a b q = cc q

    verdict_ok :
        (applied : Px4HealthReport → A) (o : Option (Result NotReady Px4HealthReport)) (a : A)
        → verdict l lib r is_finite neg C Q w applied o ≡ some (ok a)
        → (health : Px4HealthReport) × (a ≡ applied health) × (o ≡ some (ok health))
    verdict_ok applied none a q = absurd (cc q)
    verdict_ok applied (some (ok health)) a q = (health, sym (ok_eq (applied health) a q), refl)
    verdict_ok applied (some (err why)) a q = absurd (cc q)

    after_restart-Restart :
        (applied : Px4HealthReport → A) (s : S) (session : FcSession)
        (d : Result RestartError Ekf2Restart)
        → Restarted w.board session (also restarting_ekf ∷ s.flow) d (restart_of session s.flow).0
        → Restart (some session) applied s (
            after_restart l lib r is_finite neg C Q w applied s
              ((restart_of session s.flow).0, (restart_of session s.flow).1, d))
    unfolding wait_until_ready
    after_restart-Restart applied s session (err why) k = ((refl, refl, refl), λ a e. absurd (cc e))
    after_restart-Restart applied s session (ok restart) k = (
      (refl, refl, refl),
      λ a e.
          let d = restart_of session s.flow in
          let v =
            verdict_ok applied (wait_until_ready w.board d.1 restart (also waiting_for_px4 ∷ d.0)) a
              e in
          (
            v.0,
            v.1,
            inr (
              restart,
              k,
              wait_for_px4_ready-Decided restart d.1.timing
                  (w.board.turns (also waiting_for_px4 ∷ d.0)) (ok v.0) v.2,
            ),
          ),
    )

    Restart-if :
        (t : Bool) (o : Option FcSession) (applied : Px4HealthReport → A) (s : S) (x y : O)
        → (t ≡ true → Restart o applied s x)
        → (t ≡ false → Restart o applied s y)
        → Restart o applied s (if t then x else y)
    Restart-if true o applied s x y f g = f refl
    Restart-if false o applied s x y f g = g refl

    restart_if-Restart :
        (applied : Px4HealthReport → A) (s : S) (o : Option FcSession)
        → Restart o applied s (restart_if l lib r is_finite neg C Q w o applied s)
    restart_if-Restart applied s none =
        ((refl, refl, refl), λ a e. (not_applicable, sym (ok_eq _ a e), refl))
    restart_if-Restart applied s (some session) =
        Restart-if (is_sim_only session) (some session) applied s
          (s, some (ok (applied not_applicable)))
          (after_restart l lib r is_finite neg C Q w applied s (restart_of session s.flow))
          (λ t. (
            (refl, refl, refl),
            λ a e. (not_applicable, sym (ok_eq _ a e), inl (ground (arith, t), refl)),
          ))
          (λ t.
            after_restart-Restart applied s session (restart_of session s.flow).2
              (restart_ekf2-Restarted w.board session (also restarting_ekf ∷ s.flow)))

    -- What the step before it leaves: one build handed over at most, and none refused by silence.
    abbrev HandOver : C → (Px4HealthReport → A) → S → O → Type 0
    HandOver config applied s out =
        (out.0.anchor ≡ s.anchor)
        × (out.0.link ≡ s.link)
        × (((out.0.configs ≡ s.configs)
              × (w.simulation_listens ≡ false)
              × (out.1 ≡ some (err simulation_unavailable)))
            ⊎ ((out.0.configs ≡ config ∷ s.configs) × (w.simulation_listens ≡ true)))
        × ((a : A)
            → out.1 ≡ some (ok a)
            → (w.simulation_listens ≡ true)
              × (is_applied l lib r is_finite neg C Q w s.fc_session ≡ true)
              × ((health : Px4HealthReport) × (a ≡ applied health)
                  × Grounded s.fc_session s.flow health))

    HandOver-if :
        (t : Bool) (config : C) (applied : Px4HealthReport → A) (s : S) (x y : O)
        → (t ≡ true → HandOver config applied s x)
        → (t ≡ false → HandOver config applied s y)
        → HandOver config applied s (if t then x else y)
    HandOver-if true config applied s x y f g = f refl
    HandOver-if false config applied s x y f g = g refl

    pub hand_over-HandOver :
        (config : C) (applied : Px4HealthReport → A) (s : S)
        → HandOver config applied s (hand_over l lib r is_finite neg C Q w config applied s)
    unfolding restart_ekf2_and_wait_for_px4
    hand_over-HandOver config applied s =
        let handed = record s { configs = config ∷ s.configs } in
        HandOver-if (not w.simulation_listens) config applied s
          (s, some (err simulation_unavailable)) _
          (λ t. (refl, refl, inl (refl, ground (arith, t), refl), λ a e. absurd (cc e)))
          (λ t.
            HandOver-if (not (is_applied l lib r is_finite neg C Q w s.fc_session)) config applied s
              (handed, some (err not_applied))
              (restart_ekf2_and_wait_for_px4 l lib r is_finite neg C Q w applied handed)
              (λ u. (refl, refl, inr (refl, ground (arith, t)), λ a e. absurd (cc e)))
              (λ u.
                let ((same, configs, link), ready) =
                  restart_if-Restart applied handed s.fc_session in
                (
                  same,
                  link,
                  inr (configs, ground (arith, t)),
                  λ a e. (ground (arith, t), ground (arith, u), ready a e),
                )))
