-- ===== src/Provision/Written.antt =====
-- crates/websocket/src/preflight.rs: a write that succeeds was taken by the queue and confirmed by
-- the board.
use hitl_daemon.Base.{
  ℕ, zero, suc, true, ◌≡◌, ◌≢◌, inl, inr, refl, sym, ap, subst, ◌∙◌, none, some, List, [], ◌∷◌,
  arith, Bool-cases,
}
use hitl_daemon.Provision.{
  Setting, param_set, sent, full, Message, SnapshotParam, Effect, tried, drained, slept, Env, acked,
  link_lost, send_attempts, send_with_backpressure,
}
use hitl_daemon.Provision.Answers.{Extends, Extends-trans, Outcome-cases, Option-cases}
use hitl_daemon.Provision.Cycle.{param_retry_count}
use hitl_daemon.Provision.Restore.{setting_of, restore_attempts, restore_all, send_failed}

some-none : {A : Type 0} (a : A) → some a ≢ none
some-none a q = ground arith

module _ (e : Env) where
  open e use {F32}

  abbrev History : Type 0
  History = List (Effect F32)

  -- The queue took the message at a history from which the other goes on.
  abbrev pub Taken : Message F32 → History → History → Type 0
  Taken message h end =
      (k : History) × Extends e h k × (e.try_send k message ≡ sent) × (end ≡ tried message sent ∷ k)

  pub send_attempts-Taken :
      (n : ℕ) (message : Message F32) (h : History)
      → (send_attempts e n message h).1 ≡ none
      → Taken message h (send_attempts e n message h).0
  unfolding send_attempts
  send_attempts-Taken zero message h q = absurd (some-none _ q)
  send_attempts-Taken (suc n) message h q = elim (Outcome-cases (e.try_send h message)) [
    | inl p ↦
        let again = send_attempts e n message (slept 25 ∷ tried message full ∷ h) in
        let same : send_attempts e (suc n) message h ≡ again = rw (p, send_attempts) refl in
        let (k, x, s, w) =
          send_attempts-Taken n message (slept 25 ∷ tried message full ∷ h)
            (sym (ap (λ t. t.1) same) ∙ q) in
        (
          k,
          Extends-trans e h _ k (slept 25 ∷ tried message full ∷ [], refl) x,
          s,
          ap (λ t. t.0) same ∙ w,
        )
    | inr (inl p) ↦
        let lost : (send_attempts e (suc n) message h).1 ≡ some link_lost =
          rw (p, send_attempts) refl in
        absurd (some-none _ (sym lost ∙ q))
    | inr (inr p) ↦ (h, ([], refl), p, rw (p, send_attempts) refl)
  ]

  -- Between two histories the queue took the setting, and the board confirmed it after that.
  abbrev pub Confirmed : List (Effect F32) → List (Effect F32) → Setting F32 → Type 0
  Confirmed from to s =
      (h : List (Effect F32)) × Extends e from h
      × (e.try_send h (param_set s) ≡ sent)
      × (acked e s (e.param_values (tried (param_set s) sent ∷ h)) ≡ true)
      × Extends e (drained ∷ tried (param_set s) sent ∷ h) to

  Confirmed-within :
      (a b c d : History) (s : Setting F32)
      → Extends e a b
      → Extends e c d
      → Confirmed b c s
      → Confirmed a d s
  Confirmed-within a b c d s x y (h, z, t, q, w) =
      (h, Extends-trans e a b h x z, t, q, Extends-trans e _ c d w y)

  Confirmed-Extends : (a b : History) (s : Setting F32) → Confirmed a b s → Extends e a b
  Confirmed-Extends a b s (h, z, t, q, w) =
      Extends-trans e a h b z
        (Extends-trans e h _ b (drained ∷ tried (param_set s) sent ∷ [], refl) w)

  send_with_backpressure-Taken :
      (s : Setting F32) (h : History)
      → (send_with_backpressure e (param_set s) h).1 ≡ none
      → Taken (param_set s) h (send_with_backpressure e (param_set s) h).0
  unfolding send_with_backpressure
  send_with_backpressure-Taken s h q = send_attempts-Taken 40 (param_set s) h q

  restore_attempts-Confirmed :
      (n : ℕ) (s : Setting F32) (h : History)
      → (restore_attempts e n s h).1 ≡ none
      → Confirmed h (restore_attempts e n s h).0 s
  unfolding restore_attempts
  restore_attempts-Confirmed zero s h q = absurd (some-none _ q)
  restore_attempts-Confirmed (suc n) s h q =
      let out = send_with_backpressure e (param_set s) h in
      elim (Option-cases out.1) [
        | inr (why, p) ↦
            let failed : (restore_attempts e (suc n) s h).1 ≡ some send_failed =
              rw (p, restore_attempts) refl in
            absurd (some-none _ (sym failed ∙ q))
        | inl p ↦
            let (k, x, t, w) = send_with_backpressure-Taken s h p in
            elim (Bool-cases (acked e s (e.param_values out.0))) [
              | inl a ↦
                  let same : restore_attempts e (suc n) s h ≡ (drained ∷ out.0, none) =
                    rw (p, restore_attempts) rw a refl in
                  (
                    k,
                    x,
                    t,
                    subst (λ l. acked e s (e.param_values l) ≡ true) w a,
                    ([], ap (λ r. r.0) same ∙ ap (λ l. drained ∷ l) w),
                  )
              | inr a ↦
                  let same : restore_attempts e (suc n) s h
                      ≡ restore_attempts e n s (drained ∷ out.0) =
                    rw (p, restore_attempts) rw a refl in
                  subst (λ r. Confirmed h r.0 s) (sym same)
                    (Confirmed-within h (drained ∷ out.0) _ _ s
                      (Extends-trans e h k _ x
                        (drained ∷ tried (param_set s) sent ∷ [], ap (λ l. drained ∷ l) w))
                      ([], refl)
                      (restore_attempts-Confirmed n s (drained ∷ out.0)
                        (sym (ap (λ r. r.1) same) ∙ q)))
            ]
      ]

  -- Every parameter was written and confirmed.
  abbrev pub Written : List (Effect F32) → List (Effect F32) → List (SnapshotParam F32) → Type 0
  Written from to [] = Unit {0}
  Written from to (x ∷ xs) = Confirmed from to (setting_of e x) × Written from to xs

  pub Written-within :
      (a b c d : History) (xs : List (SnapshotParam F32))
      → Extends e a b
      → Extends e c d
      → Written b c xs
      → Written a d xs
  Written-within a b c d [] x y w = tt
  Written-within a b c d (p ∷ ps) x y (w, ws) =
      (Confirmed-within a b c d (setting_of e p) x y w, Written-within a b c d ps x y ws)

  pub restore_all-Written :
      (xs : List (SnapshotParam F32)) (h : List (Effect F32))
      → (restore_all e xs h).1 ≡ none
      → Written h (restore_all e xs h).0 xs × Extends e h (restore_all e xs h).0
  unfolding restore_all
  restore_all-Written [] h q = (tt, ([], refl))
  restore_all-Written (x ∷ xs) h q =
      let s = setting_of e x in
      let one = restore_attempts e param_retry_count s h in
      elim (Option-cases one.1) [
        | inr (why, p) ↦
            let failed : (restore_all e (x ∷ xs) h).1 ≡ some why = rw (p, restore_all) refl in
            absurd (some-none why (sym failed ∙ q))
        | inl p ↦
            let same : restore_all e (x ∷ xs) h ≡ restore_all e xs one.0 =
              rw (p, restore_all) refl in
            let first = restore_attempts-Confirmed param_retry_count s h p in
            let (ws, more) = restore_all-Written xs one.0 (sym (ap (λ r. r.1) same) ∙ q) in
            let begun = Confirmed-Extends h one.0 s first in
            subst (λ r. (Confirmed h r.0 s × Written h r.0 xs) × Extends e h r.0) (sym same)
              (
                (
                  Confirmed-within h h one.0 (restore_all e xs one.0).0 s ([], refl) more first,
                  Written-within h one.0 _ _ xs begun ([], refl) ws,
                ),
                Extends-trans e h one.0 _ begun more,
              )
      ]
