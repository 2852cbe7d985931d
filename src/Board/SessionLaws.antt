-- ===== src/Board/SessionLaws.antt =====
-- The EKF2 restart: which commands were sent, and what a success rests on.
use hitl_daemon.Base.{
  ℕ, Bool, true, false, ◌==◌, ◌≤◌, ◌≡◌, ◌≢◌, inl, inr, refl, if◌then◌else◌, Option, none, some,
  List, ◌∷◌, Result, ok, err, ◌>>=◌, arith, Bool-cases, u32_max,
}
use hitl_daemon.Provision.{Delivery, Sent, sent, full, disconnected}
use hitl_daemon.Protocol.Messages.{NshResponse}
use hitl_daemon.Board.Nsh.{
  Texts, NshError, internal_request_id_first, advance, request_of, first_failing, judged,
  judge_ekf2_stop, judge_ekf2_start, await_reply, run_nsh,
}
use hitl_daemon.Board.Ready.{Ekf2Restart}
use hitl_daemon.Board.Session.{
  Effect, asked, marked_started, FcSession, Env, is_sim_only, RestartError, no_flight_controller,
  ekf2_stop, ekf2_start, ekf2_stop_text, ekf2_start_text, Done, ask, after_start, after_stop,
  restart_ekf2,
}

-- The ids of the daemon's own commands.
abbrev IsInternal : ℕ → Type 0
IsInternal id = (internal_request_id_first ≤ id) × (id ≤ u32_max)

advance-IsInternal : (id : ℕ) → IsInternal id → IsInternal (advance id) × (advance id ≢ id)
unfolding advance
advance-IsInternal id h = elim (Bool-cases (id == u32_max)) [
  | inl e ↦ rw (e, advance) ((omega arith, omega arith), λ q. ground (arith, e, q))
  | inr e ↦ rw (e, advance) ((omega arith, ground (arith, e)), λ q. omega (arith, q))
]

-- The board answered the request `id` with this text.
abbrev pub Answered : Texts → ℕ → List (Delivery NshResponse) → List ℕ → Type 0
Answered t id deliveries output = await_reply t id deliveries ≡ ok output

bind_ok :
    {E A B : Type 0} (r : Result E A) (f : A → Result E B) (b : B)
    → (r >>= f) ≡ ok b
    → (a : A) × (r ≡ ok a) × (f a ≡ ok b)
bind_ok (ok a) f b h = (a, refl, h)
bind_ok (err e) f b h = absurd (cc h)

run_nsh-Answered :
    (t : Texts) (id : ℕ) (outcome : Sent) (deliveries : List (Delivery NshResponse))
    (output : List ℕ)
    → run_nsh t id outcome deliveries ≡ ok output
    → (outcome ≡ sent) × Answered t id deliveries output
unfolding run_nsh
run_nsh-Answered t id sent deliveries output h = (refl, h)
run_nsh-Answered t id full deliveries output h = absurd (cc h)
run_nsh-Answered t id disconnected deliveries output h = absurd (cc h)

judged-none : (t : Texts) (o : Option (List ℕ)) (u : Unit {0}) → judged t o ≡ ok u → o ≡ none
judged-none t none u h = refl
judged-none t (some line) u h = absurd (cc h)

module _ {A : Type 0} (e : Env A) (session : FcSession) (h : List (Effect A)) where
  -- The two requests and the histories behind them.
  abbrev stop_id : ℕ
  stop_id = session.next_id

  abbrev start_id : ℕ
  start_id = advance session.next_id

  abbrev stop_asked : List (Effect A)
  stop_asked =
      asked (request_of stop_id ekf2_stop_text) (e.try_send h (request_of stop_id ekf2_stop_text))
      ∷ h

  abbrev start_asked : List (Effect A)
  start_asked =
      asked (request_of start_id ekf2_start_text)
        (e.try_send stop_asked (request_of start_id ekf2_start_text))
      ∷ stop_asked

  -- Both commands were accepted and answered, and no line of the answer to the start is a failure.
  pub record Confirmed (restart : Ekf2Restart) (after : List (Effect A)) : Type 0 where
    pub board : session.has_board ≡ true
    pub history : after ≡ marked_started restart.confirmed_at ∷ start_asked
    pub began : restart.began_at ≡ e.now h
    stop_sent : e.try_send h (request_of stop_id ekf2_stop_text) ≡ sent
    start_sent : e.try_send stop_asked (request_of start_id ekf2_start_text) ≡ sent
    pub stopped : (output : List ℕ) × Answered e.texts stop_id (e.replies stop_asked) output
    started :
        (output : List ℕ) × Answered e.texts start_id (e.replies start_asked) output
        × (first_failing e.texts (e.texts.lines output) ≡ none)

  -- What was sent, by the result.
  abbrev pub Restarted : Result RestartError Ekf2Restart → List (Effect A) → Type 0
  Restarted (ok restart) after = Confirmed restart after
  Restarted (err no_flight_controller) after = (session.has_board ≡ false) × (after ≡ h)
  Restarted (err (ekf2_stop why)) after = after ≡ stop_asked
  Restarted (err (ekf2_start why)) after = after ≡ start_asked

  abbrev stop_reply : Result NshError (Unit {0})
  stop_reply =
      run_nsh e.texts stop_id (e.try_send h (request_of stop_id ekf2_stop_text))
        (e.replies stop_asked)
      >>= judge_ekf2_stop

  abbrev start_reply : Result NshError (Unit {0})
  start_reply =
      run_nsh e.texts start_id (e.try_send stop_asked (request_of start_id ekf2_start_text))
        (e.replies start_asked)
      >>= judge_ekf2_start e.texts

  abbrev started_session : FcSession
  started_session = record session { next_id = advance start_id }

  abbrev stopped_session : FcSession
  stopped_session = record session { next_id = start_id }

  Confirmed_lem :
      session.has_board ≡ true
      → stop_reply ≡ ok tt
      → start_reply ≡ ok tt
      → Confirmed
          (record { began_at = e.now h; confirmed_at = e.now start_asked })
          (marked_started (e.now start_asked) ∷ start_asked)
  unfolding judge_ekf2_start
  Confirmed_lem board stop start =
      let a = bind_ok _ judge_ekf2_stop tt stop in
      let b = bind_ok _ (judge_ekf2_start e.texts) tt start in
      let x = run_nsh-Answered e.texts stop_id _ (e.replies stop_asked) a.0 a.1 in
      let y = run_nsh-Answered e.texts start_id _ (e.replies start_asked) b.0 b.1 in
      record {
        board = board;
        history = refl;
        began = refl;
        stop_sent = x.0;
        start_sent = y.0;
        stopped = (a.0, x.1);
        started = (b.0, y.1, judged-none e.texts _ tt b.2);
      }

  after_start-Restarted :
      session.has_board ≡ true
      → stop_reply ≡ ok tt
      → (r : Result NshError (Unit {0})) → start_reply ≡ r
      → let d = after_start e (e.now h) (start_asked, started_session, r) in Restarted d.2 d.0
  after_start-Restarted board stop (err why) start = refl
  after_start-Restarted board stop (ok u) start = Confirmed_lem board stop start

  after_stop-Restarted :
      session.has_board ≡ true
      → (r : Result NshError (Unit {0})) → stop_reply ≡ r
      → let d = after_stop e (e.now h) (stop_asked, stopped_session, r) in Restarted d.2 d.0
  unfolding ask
  after_stop-Restarted board (err why) stop = refl
  after_stop-Restarted board (ok u) stop = after_start-Restarted board stop start_reply refl

  Restarted-if :
      (t : Bool) (x y : Done e (Result RestartError Ekf2Restart))
      → (t ≡ true → Restarted x.2 x.0)
      → (t ≡ false → Restarted y.2 y.0)
      → let d = if t then x else y in Restarted d.2 d.0
  Restarted-if true x y f g = f refl
  Restarted-if false x y f g = g refl

  pub restart_ekf2-Restarted : let d = restart_ekf2 e session h in Restarted d.2 d.0
  unfolding restart_ekf2 ask
  restart_ekf2-Restarted =
      Restarted-if (is_sim_only session) (h, session, err no_flight_controller)
        (after_stop e (e.now h) (stop_asked, stopped_session, stop_reply))
        (λ q. (ground (arith, q), refl))
        (λ q. after_stop-Restarted (ground (arith, q)) stop_reply refl)
