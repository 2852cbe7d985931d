-- ===== src/Build/PushLaws.antt =====
-- What a push of parameters confirms, and when the fingerprint lets it be skipped.
use hitl_daemon.Base.{
  ℕ, zero, suc, ◌+◌, ◌≡◌, ◌⊎◌, inl, inr, refl, ap, ◌∙◌, Bool, true, false, not, ◌||◌, if◌then◌else◌,
  Option, none, some, List, [], ◌∷◌, length, Result, ok, err, arith, Bool-cases,
}
use hitl_daemon.Provision.{
  Setting, param_set, param_save, sent, full, Effect, tried, drained, slept, Env, acked,
}
use hitl_daemon.Provision.Cycle.{param_retry_count}
use hitl_daemon.Build.Push.{
  Library, PushError, not_verified, tx_disconnected, Attempted, confirmed, unconfirmed, lost,
  LastVerifiedParams, PushState, push_fingerprint, params_of, again, push_param, name_of,
  push_params, Pushed, cached, is_cached, push_pids_and_verify,
}

module _ (e : Env) (l : Library e.F32) where
  open e use {F32, param_values}

  -- Somewhere in the history the value was sent, and then acknowledged.
  abbrev pub Confirmed : Setting F32 → List (Effect F32) → Type 0
  Confirmed s [] = ⊥
  Confirmed s (x ∷ h) =
      ((x ≡ tried (param_set s) sent) × (acked e s (param_values (x ∷ h)) ≡ true)) ⊎ Confirmed s h

  abbrev pub AllConfirmed : List (Setting F32) → List (Effect F32) → Type 0
  AllConfirmed [] h = Unit {0}
  AllConfirmed (s ∷ rest) h = Confirmed s h × AllConfirmed rest h

  -- What one parameter's attempts leave.
  abbrev Attempts : Setting F32 → List (Effect F32) × Attempted → Type 0
  Attempts s (h, confirmed) = Confirmed s h
  Attempts s (h, unconfirmed) = Unit {0}
  Attempts s (h, lost) = Unit {0}

  push_param-Attempts :
      (n : ℕ) (s : Setting F32) (h : List (Effect F32)) → Attempts s (push_param e l n s h)
  unfolding push_param
  push_param-Attempts zero s h = tt
  push_param-Attempts (suc n) s h = ground (
    arith,
    push_param-Attempts n s (again e l n (slept 50 ∷ tried (param_set s) full ∷ h)),
    push_param-Attempts n s (again e l n (tried (param_set s) sent ∷ h)),
  )

  again-keeps :
      (t : Setting F32) (n : ℕ) (h : List (Effect F32))
      → Confirmed t h
      → Confirmed t (again e l n h)
  again-keeps t zero h k = k
  again-keeps t (suc n) h k = inr k

  -- Nothing is taken out of the history.
  push_param-keeps :
      (t : Setting F32) (n : ℕ) (s : Setting F32) (h : List (Effect F32))
      → Confirmed t h
      → Confirmed t (push_param e l n s h).0
  unfolding push_param
  push_param-keeps t zero s h k = k
  push_param-keeps t (suc n) s h k = ground (
    arith,
    push_param-keeps t n s (again e l n (slept 50 ∷ tried (param_set s) full ∷ h))
        (again-keeps t n _ (inr (inr k))),
    push_param-keeps t n s (again e l n (tried (param_set s) sent ∷ h)) (again-keeps t n _ (inr k)),
  )

  -- The commands to write the flash.
  abbrev is_save : Effect F32 → Bool
  is_save (tried param_save outcome) = true
  is_save x = false

  unfoldable pub saves : List (Effect F32) → ℕ
  saves [] = 0
  saves (x ∷ h) = if is_save x then suc (saves h) else saves h

  again-saves : (n : ℕ) (h : List (Effect F32)) → saves (again e l n h) ≡ saves h
  unfolding saves
  again-saves zero h = refl
  again-saves (suc n) h = refl

  push_param-saves :
      (n : ℕ) (s : Setting F32) (h : List (Effect F32)) → saves (push_param e l n s h).0 ≡ saves h
  unfolding push_param saves
  push_param-saves zero s h = refl
  push_param-saves (suc n) s h = ground (
    arith,
    push_param-saves n s (again e l n (slept 50 ∷ tried (param_set s) full ∷ h)),
    again-saves n (slept 50 ∷ tried (param_set s) full ∷ h),
    push_param-saves n s (again e l n (tried (param_set s) sent ∷ h)),
    again-saves n (tried (param_set s) sent ∷ h),
  )

  push_params-keeps :
      (t : Setting F32) (ss : List (Setting F32)) (v : ℕ) (h : List (Effect F32))
      → Confirmed t h
      → Confirmed t (push_params e l ss v h).0
  unfolding push_params
  push_params-keeps t [] v h k = k
  push_params-keeps t (s ∷ rest) v h k =
      let kept = push_param-keeps t param_retry_count s (drained ∷ h) (inr k) in
      ground (
        arith,
        kept,
        push_params-keeps t rest (v + 1) (push_param e l param_retry_count s (drained ∷ h)).0 kept,
      )

  -- What the loop leaves: all confirmed and counted, or a failure.
  abbrev Params :
      List (Setting F32) → ℕ → List (Effect F32) → List (Effect F32) × Result PushError ℕ → Type 0
  Params ss v h (h2, ok n) = (n ≡ v + length ss) × AllConfirmed ss h2 × (saves h2 ≡ saves h)
  Params ss v h (h2, err why) = saves h2 ≡ saves h

  Params-tail :
      (s : Setting F32) (rest : List (Setting F32)) (v : ℕ) (h mid : List (Effect F32))
      (r : List (Effect F32) × Result PushError ℕ)
      → Confirmed s r.0
      → saves mid ≡ saves h
      → Params rest (v + 1) mid r
      → Params (s ∷ rest) v h r
  Params-tail s rest v h mid (h2, ok n) k q (a, b, c) = (omega (arith, a), (k, b), c ∙ q)
  Params-tail s rest v h mid (h2, err why) k q a = a ∙ q

  -- After one parameter's attempts.
  push_params-step :
      (s : Setting F32) (rest : List (Setting F32)) (v : ℕ) (h : List (Effect F32))
      (p : List (Effect F32) × Attempted)
      → ((mid : List (Effect F32)) → Params rest (v + 1) mid (push_params e l rest (v + 1) mid))
      → Attempts s p
      → saves p.0 ≡ saves h
      → Params (s ∷ rest) v h (elim p.1 [
        | confirmed ↦ push_params e l rest (v + 1) p.0
        | unconfirmed ↦ (p.0, err (not_verified (name_of e l s)))
        | lost ↦ (p.0, err (tx_disconnected (name_of e l s)))
      ])
  push_params-step s rest v h (h2, confirmed) ih k q =
      Params-tail s rest v h h2 (push_params e l rest (v + 1) h2)
        (push_params-keeps s rest (v + 1) h2 k) q (ih h2)
  push_params-step s rest v h (h2, unconfirmed) ih k q = q
  push_params-step s rest v h (h2, lost) ih k q = q

  push_params-Params :
      (ss : List (Setting F32)) (v : ℕ) (h : List (Effect F32))
      → Params ss v h (push_params e l ss v h)
  unfolding push_params saves
  push_params-Params [] v h = (omega arith, tt, refl)
  push_params-Params (s ∷ rest) v h =
      push_params-step s rest v h (push_param e l param_retry_count s (drained ∷ h))
        (λ mid. push_params-Params rest (v + 1) mid)
        (push_param-Attempts param_retry_count s (drained ∷ h))
        (push_param-saves param_retry_count s (drained ∷ h))

  -- A push that was skipped, that went through, and that failed.
  abbrev pub Outcome :
      LastVerifiedParams e l → PushState e l → List (Effect F32) → Pushed e l → Type 0
  Outcome p b h (h2, b2, ok (none, n)) =
      ((b.has_mav_tx ≡ false)
        ⊎ (b.has_param_values ≡ false)
        ⊎ (b.last_pid_fingerprint ≡ some (push_fingerprint e l p)))
      × (n ≡ 0)
      × (h2 ≡ h)
      × (b2 ≡ b)
  Outcome p b h (h2, b2, ok (some view, n)) =
      AllConfirmed (params_of e l p) h2
      × (n ≡ length (params_of e l p))
      × (view ≡ l.gains p.pids)
      × (saves h2 ≡ suc (saves h))
      × (b2.last_pid_fingerprint ≡ some (push_fingerprint e l p))
      × (b2.last_verified_params ≡ some p)
  Outcome p b h (h2, b2, err why) = (b2 ≡ b) × (saves h2 ≡ saves h)

  AllConfirmed-more :
      (ss : List (Setting F32)) (x : Effect F32) (h : List (Effect F32))
      → AllConfirmed ss h
      → AllConfirmed ss (x ∷ h)
  AllConfirmed-more [] x h k = tt
  AllConfirmed-more (s ∷ rest) x h (k, ks) = (inr k, AllConfirmed-more rest x h ks)

  cached-Outcome :
      (p : LastVerifiedParams e l) (b : PushState e l) (h : List (Effect F32))
      (r : List (Effect F32) × Result PushError ℕ)
      → Params (params_of e l p) 0 h r
      → Outcome p b h (cached e l b p r)
  unfolding saves
  cached-Outcome p b h (h2, err why) k = (refl, k)
  cached-Outcome p b h (h2, ok n) (k, all, q) =
      (AllConfirmed-more (params_of e l p) _ h2 all, omega (arith, k), refl, ap suc q, refl, refl)

  is_cached_lem : (o : Option ℕ) (fp : ℕ) → is_cached e l o fp ≡ true → o ≡ some fp
  is_cached_lem none fp q = absurd (cc q)
  is_cached_lem (some known) fp q = ap some (ground (arith, q))

  Outcome-if :
      (t : Bool) (p : LastVerifiedParams e l) (b : PushState e l) (h : List (Effect F32))
      (x y : Pushed e l)
      → (t ≡ true → Outcome p b h x)
      → (t ≡ false → Outcome p b h y)
      → Outcome p b h (if t then x else y)
  Outcome-if true p b h x y f g = f refl
  Outcome-if false p b h x y f g = g refl

  no_link : (a b : Bool) → (not a || not b) ≡ true → (a ≡ false) ⊎ (b ≡ false)
  no_link false b q = inl refl
  no_link true false q = inr refl
  no_link true true q = absurd (cc q)

  -- A push of parameters is skipped, with nothing changed, only where a channel is missing or the
  -- fingerprint is cached. One that succeeds has sent every parameter and seen it acknowledged
  -- after that, counts them all, has tried one save, and caches the fingerprint and the
  -- parameters. One that fails leaves the caches alone and has tried no save.
  pub push_pids_and_verify-Outcome :
      (p : LastVerifiedParams e l) (b : PushState e l) (h : List (Effect F32))
      → Outcome p b h (push_pids_and_verify e l p b h)
  unfolding push_pids_and_verify
  push_pids_and_verify-Outcome p b h =
      Outcome-if (not b.has_mav_tx || not b.has_param_values) p b h (h, b, ok (none, 0)) _
        (λ q. (
          elim (no_link b.has_mav_tx b.has_param_values q) [ inl x ↦ inl x | inr x ↦ inr (inl x) ],
          refl,
          refl,
          refl,
        ))
        (λ q.
          Outcome-if (is_cached e l b.last_pid_fingerprint (push_fingerprint e l p)) p b h
            (h, b, ok (none, 0)) _
            (λ r. (
              inr (inr (is_cached_lem b.last_pid_fingerprint (push_fingerprint e l p) r)),
              refl,
              refl,
              refl,
            ))
            (λ r.
              cached-Outcome p b h (push_params e l (params_of e l p) 0 h)
                (push_params-Params (params_of e l p) 0 h)))

  -- Why a push was skipped.
  abbrev Skipped : LastVerifiedParams e l → PushState e l → Type 0
  Skipped p b =
      (b.has_mav_tx ≡ false)
      ⊎ (b.has_param_values ≡ false)
      ⊎ (b.last_pid_fingerprint ≡ some (push_fingerprint e l p))

  abbrev pub is_skipped : Pushed e l → Bool
  is_skipped (h, b, ok (none, n)) = true
  is_skipped x = false

  Outcome-Skipped :
      (p : LastVerifiedParams e l) (b : PushState e l) (h : List (Effect F32)) (r : Pushed e l)
      → Outcome p b h r
      → is_skipped r ≡ true
      → Skipped p b
  Outcome-Skipped p b h (h2, b2, ok (none, n)) (why, x, y, z) q = why
  Outcome-Skipped p b h (h2, b2, ok (some view, n)) k q = absurd (cc q)
  Outcome-Skipped p b h (h2, b2, err why) k q = absurd (cc q)

  linked :
      (p : LastVerifiedParams e l) (b : PushState e l)
      → b.has_mav_tx ≡ true
      → b.has_param_values ≡ true
      → b.last_pid_fingerprint ≡ none
      → Skipped p b
      → ⊥
  linked p b x y z (inl q) = cc (x, q)
  linked p b x y z (inr (inl q)) = cc (y, q)
  linked p b x y z (inr (inr q)) = cc (z, q)

  -- With both channels and no fingerprint a push is not skipped.
  pub push_pids_and_verify-unskipped :
      (p : LastVerifiedParams e l) (b : PushState e l) (h : List (Effect F32))
      → b.has_mav_tx ≡ true
      → b.has_param_values ≡ true
      → b.last_pid_fingerprint ≡ none
      → is_skipped (push_pids_and_verify e l p b h) ≡ false
  push_pids_and_verify-unskipped p b h x y z =
      elim (Bool-cases (is_skipped (push_pids_and_verify e l p b h))) [
        | inl q ↦ absurd (
            linked p b x y z (
              Outcome-Skipped p b h (push_pids_and_verify e l p b h)
                (push_pids_and_verify-Outcome p b h) q))
        | inr q ↦ q
      ]
