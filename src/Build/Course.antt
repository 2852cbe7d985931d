-- ===== src/Build/Course.antt =====
-- The course of a request: what it must pass before the origin moves, and what a failure leaves.
use hitl_daemon.Base.{
  ℕ, Bool, true, false, ◌≡◌, ◌⊎◌, inl, inr, refl, sym, ap, ◌∙◌, subst, if◌then◌else◌, Option, none,
  some, List, ◌∷◌, Result, ok, err,
}
use hitl_daemon.Provision
use hitl_daemon.Terrain.Geo.{Real}
use hitl_daemon.Board.Ready.{Px4HealthReport}
use hitl_daemon.Board.Session.{Effect, also, Refusal}
use hitl_daemon.Build.Push.{
  Px4PidsView, Library, LastVerifiedParams, Pushed, push_pids_and_verify,
  invalidate_pid_fingerprint,
}
use hitl_daemon.Build.PushLaws
use hitl_daemon.Build.Location.{
  BadLocation, FlightLocation, resolve_flight_location, Anchor, anchor_origin,
}
use hitl_daemon.Build.Handler.{
  ConfigStage, fetching_specs, pushing_params, ApplyError, refused, bad_location, not_fetched,
  not_pushed, armed_meanwhile, Computed, ConfigureBuild, World, session_reports_armed, hand_over,
  applied_with, after_push, after_computing, after_location, is_applied, apply, begin_session,
  finish, if_admitted, handle,
}
use hitl_daemon.Build.LocationLaws.{Agree, anchor_origin-Agree}
use hitl_daemon.Build.Laws.{S, O, A, Grounded, hand_over-HandOver}

module _ (l : Provision.Env) (lib : Library l.F32) (r : Real) (is_finite : r.F → Bool)
    (neg : r.F → r.F) (C Q : Type 0) (w : World l lib r is_finite neg C Q)
    (request : ConfigureBuild l lib r is_finite neg C Q) where
  abbrev St : Type 0
  St = S l lib r is_finite neg C Q

  abbrev Answer : Type 0
  Answer = O l lib r is_finite neg C Q

  -- The location and the build were found, the push did not fail, and PX4 was still disarmed.
  pub record Passed (s : St) (link : List (Provision.Effect l.F32)) : Type 0 where
    pub location : FlightLocation r.F
    pub computed : Computed l lib r is_finite neg C Q
    pub view : Option (Px4PidsView l.F32)
    pub verified : ℕ
    located : resolve_flight_location r is_finite neg request.flight_location ≡ ok location
    pub found : w.computed request.parts ≡ some computed
    pub pushed : (push_pids_and_verify l lib computed.params s.push s.link).2 ≡ ok (view, verified)
    pub sent : (push_pids_and_verify l lib computed.params s.push s.link).0 ≡ link
    pub disarmed :
        session_reports_armed l lib r is_finite neg C Q s.fc_session w.armed_after_push ≡ false

  -- The flow when the parameters are pushed.
  abbrev pub told : St → List (Effect ConfigStage)
  told s = also pushing_params ∷ also ConfigStage.computing ∷ also fetching_specs ∷ s.flow

  -- What an applied build rests on, by the answer.
  abbrev pub Ready :
      (s : St) (link : List (Provision.Effect l.F32)) → Passed s link → Answer → Type 0
  Ready s link p (t, some (ok a)) =
      (t.configs ≡ p.computed.config ∷ s.configs)
      × (is_applied l lib r is_finite neg C Q w s.fc_session ≡ true)
      × ((health : Px4HealthReport) × (a
            ≡ applied_with l lib r is_finite neg C Q w p.computed p.view p.verified health)
          × Grounded l lib r is_finite neg C Q w s.fc_session (told s) health)
  Ready s link p (t, o) = Unit {0}

  Ready-answer :
      (s : St) (link : List (Provision.Effect l.F32)) (p : Passed s link) (out : Answer)
      → ((a : A l lib r is_finite neg C Q)
          → out.1 ≡ some (ok a)
          → Ready s link p (out.0, some (ok a)))
      → Ready s link p out
  Ready-answer s link p (t, none) f = tt
  Ready-answer s link p (t, some (err why)) f = tt
  Ready-answer s link p (t, some (ok a)) f = f a refl

  -- Behind that, the new origin and the build handed over.
  abbrev Moved : (s : St) (link : List (Provision.Effect l.F32)) → Passed s link → Answer → Type 0
  Moved s link p out =
      (out.0.anchor
        ≡ anchor_origin r p.location.lat p.location.lon request.origin_elevation_msl s.anchor)
      × ((out.0.configs ≡ s.configs) ⊎ (out.0.configs ≡ p.computed.config ∷ s.configs))
      × Ready s link p out

  -- Either the origin and the simulation keep what they had and the answer is an error, or all was passed.
  abbrev pub Course : St → Answer → Type 0
  Course s out =
      ((out.0.anchor ≡ s.anchor)
        × (out.0.configs ≡ s.configs)
        × ((why : ApplyError) × (out.1 ≡ some (err why))))
      ⊎ ((p : Passed s out.0.link) × Moved s out.0.link p out)

  Course-if :
      (t : Bool) (s : St) (x y : Answer)
      → (t ≡ true → Course s x)
      → (t ≡ false → Course s y)
      → Course s (if t then x else y)
  Course-if true s x y f g = f refl
  Course-if false s x y f g = g refl

  either : {X Y Z T : Type 0} → (X → Z) → (Y → T) → X ⊎ Y → Z ⊎ T
  either f g (inl x) = inl (f x)
  either f g (inr y) = inr (g y)

  handed_lem :
      {X Y Z : Type 0}
      → w.simulation_listens ≡ true
      → (X × (w.simulation_listens ≡ false) × Y) ⊎ (Z × (w.simulation_listens ≡ true))
      → Z
  handed_lem t (inl (x, q, y)) = absurd (cc (t, q))
  handed_lem t (inr (z, q)) = z

  after_push-Course :
      (s : St) (location : FlightLocation r.F) (computed : Computed l lib r is_finite neg C Q)
      → resolve_flight_location r is_finite neg request.flight_location ≡ ok location
      → w.computed request.parts ≡ some computed
      → (k : Pushed l lib) → push_pids_and_verify l lib computed.params s.push s.link ≡ k
      → Course s (
          after_push l lib r is_finite neg C Q w request location computed
            (record s { flow = told s })
            k)
  after_push-Course s location computed u v (link, push, err why) q =
      inl (refl, refl, (not_pushed why, refl))
  after_push-Course s location computed u v (link, push, ok (view, verified)) q =
      let armed = session_reports_armed l lib r is_finite neg C Q s.fc_session w.armed_after_push in
      Course-if armed s
        (record s { flow = told s; link = link; push = push }, some (err armed_meanwhile)) _
        (λ t. inl (refl, refl, (armed_meanwhile, refl)))
        (λ t.
          let applied = applied_with l lib r is_finite neg C Q w computed view verified in
          let moved =
            anchor_origin r location.lat location.lon request.origin_elevation_msl s.anchor in
          let (anchor, kept, configs, ready) =
            hand_over-HandOver l lib r is_finite neg C Q w computed.config applied
              (record s { flow = told s; link = link; push = push; anchor = moved }) in
          let out =
            hand_over l lib r is_finite neg C Q w computed.config applied
              (record s { flow = told s; link = link; push = push; anchor = moved }) in
          let passed : Passed s out.0.link = record {
            location = location;
            computed = computed;
            view = view;
            verified = verified;
            located = u;
            found = v;
            pushed = ap (λ z. z.2) q;
            sent = ap (λ z. z.0) q ∙ sym kept;
            disarmed = t;
          } in
          inr (
            passed,
            (
              anchor,
              either (λ z. z.0) (λ z. z.0) configs,
              Ready-answer s out.0.link passed out (λ a e.
                  let (listens, done, grounds) = ready a e in
                  (handed_lem listens configs, done, grounds)),
            ),
          ))

  after_computing-Course :
      (s : St) (location : FlightLocation r.F)
      → resolve_flight_location r is_finite neg request.flight_location ≡ ok location
      → (o : Option (Computed l lib r is_finite neg C Q)) → w.computed request.parts ≡ o
      → Course s (
          after_computing l lib r is_finite neg C Q w request location o
            (record s { flow = also fetching_specs ∷ s.flow }))
  after_computing-Course s location u none v = inl (refl, refl, (not_fetched, refl))
  after_computing-Course s location u (some computed) v =
      after_push-Course s location computed u v
        (push_pids_and_verify l lib computed.params s.push s.link) refl

  after_location-Course :
      (s : St) (o : Result BadLocation (FlightLocation r.F))
      → resolve_flight_location r is_finite neg request.flight_location ≡ o
      → Course s (
          after_location l lib r is_finite neg C Q w request o
            (record s { flow = also fetching_specs ∷ s.flow }))
  after_location-Course s (err why) u = inl (refl, refl, (bad_location why, refl))
  after_location-Course s (ok location) u =
      after_computing-Course s location u (w.computed request.parts) refl

  finish-Course :
      (s : St) (out : Answer) → Course s out → Course s (finish l lib r is_finite neg C Q w out)
  finish-Course s (t, none) k = k
  finish-Course s (t, some (ok a)) k = k
  finish-Course s (t, some (err why)) k = k

  admitted-Course :
      (s : St) (a : Result Refusal (Unit {0}))
      → Course s (if_admitted l lib r is_finite neg C Q w a request s)
  unfolding apply
  admitted-Course s (err why) = inl (refl, refl, (refused why, refl))
  admitted-Course s (ok u) = finish-Course s (apply l lib r is_finite neg C Q w request s) (
      after_location-Course s (resolve_flight_location r is_finite neg request.flight_location)
        refl)

  -- A build request either leaves the origin and the builds handed over as they were and is
  -- answered with an error, or its location was resolved, its build computed, its parameters
  -- pushed without a failure and PX4 not reported armed after that; then the origin is anchored at
  -- that location, no other build is handed over, and an answer of success means that the build
  -- was handed over and applied, and that the health in it has its grounds.
  pub handle-Course : (s : St) → Course s (handle l lib r is_finite neg C Q w request s)
  unfolding handle
  handle-Course s = admitted-Course s (begin_session l lib r is_finite neg C Q w s.fc_session)

  abbrev opened : St → Result Refusal (Unit {0})
  opened s = begin_session l lib r is_finite neg C Q w s.fc_session

  -- What an error leaves: a refusal changes nothing at all, any other one forgets the fingerprint.
  abbrev Forgotten : St → Answer → Type 0
  Forgotten s (t, none) = Unit {0}
  Forgotten s (t, some (ok a)) = Unit {0}
  Forgotten s (t, some (err why)) =
      ((x : Refusal) × (why ≡ refused x) × (opened s ≡ err x) × (t ≡ s))
      ⊎ ((opened s ≡ ok tt) × (t.push.last_pid_fingerprint ≡ none))

  finish-Forgotten :
      (s : St) (out : Answer)
      → opened s ≡ ok tt
      → Forgotten s (finish l lib r is_finite neg C Q w out)
  unfolding invalidate_pid_fingerprint
  finish-Forgotten s (t, none) q = tt
  finish-Forgotten s (t, some (ok a)) q = tt
  finish-Forgotten s (t, some (err why)) q = inr (q, refl)

  admitted-Forgotten :
      (s : St) (a : Result Refusal (Unit {0}))
      → opened s ≡ a
      → Forgotten s (if_admitted l lib r is_finite neg C Q w a request s)
  admitted-Forgotten s (err why) q = inl (why, refl, q, refl)
  admitted-Forgotten s (ok u) q = finish-Forgotten s (apply l lib r is_finite neg C Q w request s) q

  handle-Forgotten : (s : St) → Forgotten s (handle l lib r is_finite neg C Q w request s)
  unfolding handle
  handle-Forgotten s = admitted-Forgotten s (opened s) refl

  forgotten :
      (s : St) (out : Answer) (why : ApplyError)
      → opened s ≡ ok tt
      → out.1 ≡ some (err why)
      → Forgotten s out
      → out.0.push.last_pid_fingerprint ≡ none
  forgotten s (t, none) why u q k = absurd (cc q)
  forgotten s (t, some (ok a)) why u q k = absurd (cc q)
  forgotten s (t, some (err x)) why u q (inl (y, a, b, c)) = absurd (cc (u, b))
  forgotten s (t, some (err x)) why u q (inr (a, b)) = b

  -- If a build request to which the session was opened is answered with an error and both channels
  -- to the flight controller exist afterwards, a push of any parameters that comes next is not
  -- skipped.
  pub handle_retries :
      (s : St) (why : ApplyError) (p : LastVerifiedParams l lib) (h : List (Provision.Effect l.F32))
      → opened s ≡ ok tt
      → (handle l lib r is_finite neg C Q w request s).1 ≡ some (err why)
      → (handle l lib r is_finite neg C Q w request s).0.push.has_mav_tx ≡ true
      → (handle l lib r is_finite neg C Q w request s).0.push.has_param_values ≡ true
      → PushLaws.is_skipped l lib
          (push_pids_and_verify l lib p (handle l lib r is_finite neg C Q w request s).0.push h)
        ≡ false
  handle_retries s why p h u q x y =
      let t = (handle l lib r is_finite neg C Q w request s).0.push in
      PushLaws.push_pids_and_verify-unskipped l lib p t h x y
        (forgotten s (handle l lib r is_finite neg C Q w request s) why u q (handle-Forgotten s))

  -- Ground contact and the sensors stand on one origin.
  abbrev pub OneOrigin : Anchor r.F → Type 0
  OneOrigin a = Agree r a.flight_origin a.terrain_cache

  -- If the terrain cache stands on the latitude, the longitude and the datum of the flight origin,
  -- where both exist, it does so after any build request.
  pub handle-OneOrigin :
      (s : St)
      → OneOrigin s.anchor
      → OneOrigin (handle l lib r is_finite neg C Q w request s).0.anchor
  handle-OneOrigin s k = elim (handle-Course s) [
    | inl (kept, handed, why) ↦ subst OneOrigin (sym kept) k
    | inr (p, (moved, handed, ready)) ↦
        subst OneOrigin (sym moved)
          (anchor_origin-Agree r p.location.lat p.location.lon request.origin_elevation_msl
            s.anchor).0
  ]
