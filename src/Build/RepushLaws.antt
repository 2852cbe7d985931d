-- ===== src/Build/RepushLaws.antt =====
-- What the flight controller holds after it came back.
use hitl_daemon.Base.{◌≡◌, ◌⊎◌, inl, inr, refl, false, Option, none, some, List, ◌∷◌, ok, err}
use hitl_daemon.Provision.{Effect, Env}
use hitl_daemon.Build.Push.{
  Library, PushError, LastVerifiedParams, PushState, Pushed, params_of, push_pids_and_verify,
  invalidate_pid_fingerprint,
}
use hitl_daemon.Build.PushLaws.{AllConfirmed, Outcome, push_pids_and_verify-Outcome}
use hitl_daemon.Build.Repush.{
  ConfigState, configuring, ready, error, Repushed, after_push, repush, repush_if_configured,
}

module _ (e : Env) (l : Library e.F32) where
  -- With nothing pushed before nothing happens; else the parameters are confirmed again, or the failure is
  -- shown and the fingerprint stays forgotten.
  abbrev Again :
      Option (LastVerifiedParams e l)
      → PushState e l
      → List (Effect e.F32)
      → List ConfigState
      → Repushed e l
      → Type 0
  Again none b h shown x = (x.result ≡ ok tt) × (x.link ≡ h) × (x.push ≡ b) × (x.shown ≡ shown)
  Again (some p) b h shown x =
      ((x.result ≡ ok tt)
        × (x.shown ≡ ready ∷ configuring ∷ shown)
        × (((b.has_mav_tx ≡ false) ⊎ (b.has_param_values ≡ false))
            ⊎ AllConfirmed e l (params_of e l p) x.link))
      ⊎ ((why : PushError) × (x.result ≡ err why)
          × (x.shown ≡ error why ∷ configuring ∷ shown)
          × (x.push ≡ invalidate_pid_fingerprint e l b))

  after_push-Again :
      (p : LastVerifiedParams e l) (b : PushState e l) (h : List (Effect e.F32))
      (shown : List ConfigState) (k : Pushed e l)
      → Outcome e l p (invalidate_pid_fingerprint e l b) h k
      → Again (some p) b h shown (after_push e l k (configuring ∷ shown))
  unfolding invalidate_pid_fingerprint
  after_push-Again p b h shown (link, push, ok (none, n)) (inl x, n0, same, kept) =
      inl (refl, refl, inl (inl x))
  after_push-Again p b h shown (link, push, ok (none, n)) (inr (inl x), n0, same, kept) =
      inl (refl, refl, inl (inr x))
  after_push-Again p b h shown (link, push, ok (none, n)) (inr (inr x), n0, same, kept) =
      absurd (cc x)
  after_push-Again p b h shown (link, push, ok (some view, n))
        (all, count, gains, saved, known, params) =
      inl (refl, refl, inr all)
  after_push-Again p b h shown (link, push, err why) (same, saved) = inr (why, refl, refl, same)

  repush-Again :
      (o : Option (LastVerifiedParams e l)) (b : PushState e l) (h : List (Effect e.F32))
      (shown : List ConfigState)
      → Again o b h shown (repush e l o b h shown)
  repush-Again none b h shown = (refl, refl, refl, refl)
  repush-Again (some p) b h shown =
      after_push-Again p b h shown (push_pids_and_verify e l p (invalidate_pid_fingerprint e l b) h)
        (push_pids_and_verify-Outcome e l p (invalidate_pid_fingerprint e l b) h)

  repush_if_configured-Again :
      (b : PushState e l) (h : List (Effect e.F32)) (shown : List ConfigState)
      → Again b.last_verified_params b h shown (repush_if_configured e l b h shown)
  unfolding repush_if_configured
  repush_if_configured-Again b h shown = repush-Again b.last_verified_params b h shown
