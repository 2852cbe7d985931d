-- ===== src/Board/ResetLaws.antt =====
-- What a vehicle reset does to the vehicle, and what it tells the browser, in order.
use hitl_daemon.Base.{
  Bool, true, false, not, ◌&&◌, ◌≡◌, ◌⊎◌, inl, inr, refl, sym, ◌∙◌, ap, subst, if◌then◌else◌,
  Option, none, some, List, ◌∷◌, Result, ok, err, arith,
}
use hitl_daemon.Vehicle.{Physics, SimulationState, perform}
use hitl_daemon.Vehicle
use hitl_daemon.Board.Ready.{Px4HealthReport, not_applicable, NotReady, Ekf2Restart}
use hitl_daemon.Board.Session.{
  Effect, also, FcSession, Env, Refusal, armed_refusal, busy_refusal, Door, is_sim_only,
  px4_reports_armed, begin_unless_armed, RestartError, Done, restart_ekf2, wait_until_ready,
}
use hitl_daemon.Board.ReadyLaws.{
  Decided, Reaches, wait_for_px4_ready-Decided, wait_for_px4_ready-Returns,
}
use hitl_daemon.Board.SessionLaws.{Confirmed, Restarted, restart_ekf2-Restarted}
use hitl_daemon.Board.Reset.{
  resetting_vehicle, restarting_ekf, waiting_for_px4, ResetResult, refusal, ekf2_restart_failed,
  is_ready, has_failed, Run, report, verdict, after_restart, under_lock, if_admitted, reset_steps,
  tell, run_reset,
}

module _ (p : Physics) (e : Env ResetResult) (session : FcSession) (door : Door)
    (s : SimulationState p) (h : List (Effect ResetResult)) where
  -- The history when the restart begins, and the restart itself.
  abbrev pub stages : List (Effect ResetResult)
  stages = report p e restarting_ekf (report p e resetting_vehicle h)

  abbrev pub restart_done : Done e (Result RestartError Ekf2Restart)
  restart_done = restart_ekf2 e session stages

  abbrev pub waited : List (Effect ResetResult)
  waited = report p e waiting_for_px4 restart_done.0

  -- Why the door stayed shut.
  abbrev Refused : Refusal → Type 0
  Refused armed_refusal =
      (session.has_board ≡ true) × ((door.armed_before ≡ true) ⊎ (door.armed_inside ≡ true))
  Refused busy_refusal = door.lock_free ≡ false

  -- What happened behind it.
  abbrev pub Attempted : Run p e → Type 0
  Attempted r =
      (r.vehicle ≡ perform p s Vehicle.reset)
      × (((session.has_board ≡ false)
            × (r.result ≡ some (is_ready not_applicable))
            × (r.history ≡ also (is_ready not_applicable) ∷ report p e resetting_vehicle h))
          ⊎ ((why : RestartError) × (restart_done.2 ≡ err why)
              × (r.result ≡ some (has_failed (ekf2_restart_failed why)))
              × (r.history ≡ also (has_failed (ekf2_restart_failed why)) ∷ restart_done.0))
          ⊎ ((restart : Ekf2Restart) × (restart_done.2 ≡ ok restart)
              × (r.result ≡ verdict p e (wait_until_ready e restart_done.1 restart waited))
              × (r.history ≡ tell p e r.result waited)))

  abbrev pub Outcome : Run p e → Type 0
  Outcome r =
      ((why : Refusal) × Refused why
        × (r.result ≡ some (has_failed (refusal why)))
        × (r.vehicle ≡ s)
        × (r.session ≡ session)
        × (r.history ≡ also (has_failed (refusal why)) ∷ h))
      ⊎ ((door.lock_free ≡ true)
          × (px4_reports_armed session door.armed_inside ≡ false)
          × Attempted r)

  -- A condition of the door, tested in order.
  abbrev Admission : Bool → Bool → Bool → Result Refusal (Unit {0}) → Type 0
  Admission before free inside r =
      ((why : Refusal) × (r ≡ err why)
        × ((why ≡ busy_refusal) ⊎ ((before ≡ true) ⊎ (inside ≡ true)))
        × ((why ≡ busy_refusal) → free ≡ false))
      ⊎ ((r ≡ ok tt) × (free ≡ true) × (inside ≡ false))

  Admission-tests :
      (before free inside : Bool)
      → Admission before free inside (
          if before
          then err armed_refusal
          else if not free
          then err busy_refusal
          else if inside
          then err armed_refusal
          else ok tt)
  Admission-tests true free inside = inl (armed_refusal, refl, inr (inl refl), λ q. absurd (cc q))
  Admission-tests false false inside = inl (busy_refusal, refl, inl refl, λ q. refl)
  Admission-tests false true true = inl (armed_refusal, refl, inr (inr refl), λ q. absurd (cc q))
  Admission-tests false true false = inr (refl, refl, refl)

  and_true : (a b : Bool) → (not (not a) && b) ≡ true → (a ≡ true) × (b ≡ true)
  and_true true b q = (refl, q)
  and_true false b q = absurd (cc q)

  armed_lem :
      (px4_reports_armed session door.armed_before ≡ true)
        ⊎ (px4_reports_armed session door.armed_inside ≡ true)
      → Refused armed_refusal
  unfolding px4_reports_armed
  armed_lem (inl q) = let x = and_true session.has_board _ q in (x.0, inl x.1)
  armed_lem (inr q) = let x = and_true session.has_board _ q in (x.0, inr x.1)

  Refused_lem :
      (why : Refusal)
      → ((why ≡ busy_refusal)
          ⊎ ((px4_reports_armed session door.armed_before ≡ true)
              ⊎ (px4_reports_armed session door.armed_inside ≡ true)))
      → ((why ≡ busy_refusal) → door.lock_free ≡ false)
      → Refused why
  Refused_lem busy_refusal a b = b refl
  Refused_lem armed_refusal (inl q) b = absurd (cc q)
  Refused_lem armed_refusal (inr q) b = armed_lem q

  Attempted-restart :
      (r : Result RestartError Ekf2Restart)
      → restart_done.2 ≡ r
      → let x = after_restart p e (perform p s Vehicle.reset) (restart_done.0, restart_done.1, r) in
        Attempted (record x { history = tell p e x.result x.history })
  Attempted-restart (err why) q = (refl, inr (inl (why, q, refl, refl)))
  Attempted-restart (ok restart) q = (refl, inr (inr (restart, q, refl, refl)))

  Attempted-if :
      (t : Bool) (x y : Run p e)
      → (t ≡ true → Attempted (record x { history = tell p e x.result x.history }))
      → (t ≡ false → Attempted (record y { history = tell p e y.result y.history }))
      → let r = if t then x else y in Attempted (record r { history = tell p e r.result r.history })
  Attempted-if true x y f g = f refl
  Attempted-if false x y f g = g refl

  Attempted_lem :
      let r = under_lock p e session s h in
      Attempted (record r { history = tell p e r.result r.history })
  Attempted_lem =
      Attempted-if (is_sim_only session)
        (record {
          history = report p e resetting_vehicle h;
          session = session;
          vehicle = perform p s Vehicle.reset;
          result = some (is_ready not_applicable);
        })
        (after_restart p e (perform p s Vehicle.reset) restart_done)
        (λ q. (refl, inl (ground (arith, q), refl, refl)))
        (λ q. Attempted-restart restart_done.2 refl)

  Outcome-Admission :
      (a : Result Refusal (Unit {0}))
      → begin_unless_armed session door ≡ a
      → Admission
          (px4_reports_armed session door.armed_before)
          door.lock_free
          (px4_reports_armed session door.armed_inside)
          a
      → let r = if_admitted p e a session s h in
        Outcome (record r { history = tell p e r.result r.history })
  Outcome-Admission (err why) q (inl (w, same, x, y)) =
      inl (why, subst Refused (cc same) (Refused_lem w x y), refl, refl, refl, refl)
  Outcome-Admission (err why) q (inr (same, x, y)) = absurd (cc same)
  Outcome-Admission (ok u) q (inl (w, same, x, y)) = absurd (cc same)
  Outcome-Admission (ok u) q (inr (same, free, inside)) = inr (free, inside, Attempted_lem)

  -- A reset is refused only where PX4 reports armed with a board attached or the session is taken;
  -- then the vehicle and the session stay as they were and the browser is told only that. Any
  -- other reset finds the session free and PX4 disarmed and resets the vehicle, and its result,
  -- told after the stages before it, is that of a vehicle without a board, of a failed EKF2
  -- restart, or of the readiness wait.
  pub run_reset-Outcome : Outcome (run_reset p e session door s h)
  unfolding run_reset reset_steps begin_unless_armed
  run_reset-Outcome = Outcome-Admission (begin_unless_armed session door) refl (
      Admission-tests (px4_reports_armed session door.armed_before) door.lock_free
        (px4_reports_armed session door.armed_inside))

  -- The turns after a confirmed restart reach its deadline, or the channel closes.
  abbrev pub Patient : Result RestartError Ekf2Restart → Type 0
  Patient (err why) = Unit {0}
  Patient (ok restart) = Reaches restart restart_done.1.timing (e.turns waited)

  abbrev pub Told : Run p e → Type 0
  Told r = (x : ResetResult) × (r.result ≡ some x)

  verdict-Told :
      (o : Option (Result NotReady Px4HealthReport))
      → (r : Result NotReady Px4HealthReport) → o ≡ some r
      → (x : ResetResult) × (verdict p e o ≡ some x)
  verdict-Told none r q = absurd (cc q)
  verdict-Told (some (ok answer)) r q = (_, refl)
  verdict-Told (some (err why)) r q = (_, refl)

  after_restart-Told :
      (v : SimulationState p) (r : Result RestartError Ekf2Restart)
      → Patient r
      → Told (after_restart p e v (restart_done.0, restart_done.1, r))
  unfolding wait_until_ready
  after_restart-Told v (err why) q = (_, refl)
  after_restart-Told v (ok restart) q =
      let x = wait_for_px4_ready-Returns restart restart_done.1.timing (e.turns waited) q in
      verdict-Told (wait_until_ready e restart_done.1 restart waited) x.0 x.1

  Told-if : (t : Bool) (x y : Run p e) → Told x → Told y → Told (if t then x else y)
  Told-if true x y f g = f
  Told-if false x y f g = g

  Told-admission :
      (a : Result Refusal (Unit {0}))
      → Patient restart_done.2
      → Told (if_admitted p e a session s h)
  Told-admission (err why) q = (_, refl)
  Told-admission (ok u) q =
      Told-if (is_sim_only session)
        (record {
          history = report p e resetting_vehicle h;
          session = session;
          vehicle = perform p s Vehicle.reset;
          result = some (is_ready not_applicable);
        })
        (after_restart p e (perform p s Vehicle.reset) restart_done) (_, refl)
        (after_restart-Told (perform p s Vehicle.reset) restart_done.2 q)

  -- If, after an EKF2 restart that is confirmed, the turns of the readiness wait reach its
  -- deadline or the health channel closes, a reset has a result.
  pub run_reset-result : Patient restart_done.2 → Told (run_reset p e session door s h)
  unfolding run_reset reset_steps
  run_reset-result q = Told-admission (begin_unless_armed session door) q

  -- What a ready vehicle rests on.
  abbrev pub Grounded : Px4HealthReport → Type 0
  Grounded answer =
      ((session.has_board ≡ false) × (answer ≡ not_applicable))
      ⊎ ((restart : Ekf2Restart) × Confirmed e session stages restart restart_done.0
          × Decided restart restart_done.1.timing (ok answer) (e.turns waited))

  abbrev health_of : Option ResetResult → Option Px4HealthReport
  health_of none = none
  health_of (some r) = r.px4_health

  some_eq : {A : Type 0} (a b : A) → some a ≡ some b → a ≡ b
  some_eq a b q = cc q

  verdict_ready :
      (o : Option (Result NotReady Px4HealthReport)) (answer : Px4HealthReport)
      → health_of (verdict p e o) ≡ some answer
      → o ≡ some (ok answer)
  verdict_ready none answer q = absurd (cc q)
  verdict_ready (some (ok x)) answer q = ap (λ z. some (ok z)) (some_eq x answer q)
  verdict_ready (some (err why)) answer q = absurd (cc q)

  Grounded-attempted :
      (r : Run p e) (answer : Px4HealthReport)
      → Restarted e session stages restart_done.2 restart_done.0
      → Attempted r
      → health_of r.result ≡ some answer
      → Grounded answer
  unfolding wait_until_ready
  Grounded-attempted r answer d (v, inl (sim, out, told)) q =
      inl (sim, sym (some_eq not_applicable answer (sym (ap health_of out) ∙ q)))
  Grounded-attempted r answer d (v, inr (inl (why, failed, out, told))) q =
      absurd (cc (sym (ap health_of out) ∙ q))
  Grounded-attempted r answer d (v, inr (inr (restart, done, out, told))) q = inr (
    restart,
    subst (λ z. Restarted e session stages z restart_done.0) done d,
    wait_for_px4_ready-Decided restart restart_done.1.timing (e.turns waited) (ok answer) (
        verdict_ready (wait_until_ready e restart_done.1 restart waited) answer
          (sym (ap health_of out) ∙ q)),
  )

  Grounded-Outcome :
      (r : Run p e) (answer : Px4HealthReport)
      → Outcome r
      → health_of r.result ≡ some answer
      → Grounded answer
  Grounded-Outcome r answer (inl (why, refused, out, v, kept, told)) q =
      absurd (cc (sym (ap health_of out) ∙ q))
  Grounded-Outcome r answer (inr (free, inside, attempted)) q =
      Grounded-attempted r answer (restart_ekf2-Restarted e session stages) attempted q

  -- A reset whose result is that the vehicle is ready was made without a flight controller and
  -- says so, or both commands of the EKF2 restart were accepted and answered, the answer to the
  -- start without a failing line, and the health it reports was decided on turns of the readiness
  -- wait after that restart.
  pub run_reset-Grounded :
      (answer : Px4HealthReport)
      → (run_reset p e session door s h).result ≡ some (is_ready answer)
      → Grounded answer
  run_reset-Grounded answer q =
      Grounded-Outcome (run_reset p e session door s h) answer run_reset-Outcome (ap health_of q)
