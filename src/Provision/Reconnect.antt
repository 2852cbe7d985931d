-- ===== src/Provision/Reconnect.antt =====
-- `wait_for_reconnect` of crates/websocket/src/preflight.rs: the heartbeat it trusts, and its fuel.
use hitl_daemon.Base.{
  ℕ, zero, suc, ◌+◌, ◌*◌, ◌≤◌, ◌<◌, ◌≡◌, ◌⊎◌, inl, inr, refl, Bool, true, false, List, ◌∷◌, arith,
}
use hitl_daemon.Provision.{Effect, slept, Env}
use hitl_daemon.Provision.Cycle.{poll_reconnect, wait_for_reconnect, quiet_period}

module _ (e : Env) where
  open e use {F32, now, heartbeat_status}

  -- The heartbeat at `k` came after silence: from the moment `s`, where the count stood at `seen`
  -- (the baseline, if `s` is the start), to the moment `j`, 2 s later or more, it had not moved.
  pub Trusted : ℕ → List (Effect F32) → List (Effect F32) → Type 0
  Trusted baseline start k =
      (seen : ℕ) × (s : List (Effect F32)) × (j : List (Effect F32)) × (((s ≡ start)
          × (seen ≡ baseline))
        ⊎ (seen ≡ (heartbeat_status s).0))
      × (now s + quiet_period ≤ now j)
      × ((heartbeat_status j).0 ≤ seen)
      × (seen < (heartbeat_status k).0)

  -- What the loop knows of the moment it counts the silence from.
  Since : ℕ → List (Effect F32) → ℕ → List (Effect F32) → Type 0
  Since baseline start seen s = ((s ≡ start) × (seen ≡ baseline)) ⊎ (seen ≡ (heartbeat_status s).0)

  -- What it knows once the silence is confirmed.
  Silence : ℕ → List (Effect F32) → Type 0
  Silence seen s =
      (j : List (Effect F32)) × (now s + quiet_period ≤ now j) × ((heartbeat_status j).0 ≤ seen)

  Since-here :
      (baseline : ℕ) (start h : List (Effect F32)) → Since baseline start (heartbeat_status h).0 h
  unfolding Since
  Since-here baseline start h = inr refl

  silence :
      (seen : ℕ) (s j : List (Effect F32))
      → now s + quiet_period ≤ now j
      → (heartbeat_status j).0 ≤ seen
      → Silence seen s
  unfolding Silence
  silence seen s j a b = (j, a, b)

  trust :
      (baseline : ℕ) (start : List (Effect F32)) (seen : ℕ) (s k : List (Effect F32))
      → Since baseline start seen s
      → Silence seen s
      → seen < (heartbeat_status k).0
      → Trusted baseline start k
  unfolding Since Silence Trusted
  trust baseline start seen s k a (j, b, c) d = (seen, s, j, a, b, c, d)

  poll_reconnect-Trusted :
      (baseline : ℕ) (start : List (Effect F32)) (n deadline seen : ℕ) (s : List (Effect F32))
      (confirmed : Bool) (h : List (Effect F32))
      → Since baseline start seen s
      → (confirmed ≡ true → Silence seen s)
      → (poll_reconnect e n deadline seen (now s) confirmed h).1 ≡ true
      → Trusted baseline start (poll_reconnect e n deadline seen (now s) confirmed h).0
  unfolding poll_reconnect
  poll_reconnect-Trusted baseline start zero deadline seen s confirmed h a b q = ground arith
  poll_reconnect-Trusted baseline start (suc n) deadline seen s confirmed h a b q =
      let later = slept 250 ∷ h in
      let since : Since baseline start (heartbeat_status h).0 h = Since-here baseline start h in
      let straggler =
        poll_reconnect-Trusted baseline start n deadline (heartbeat_status h).0 h false later since
          (ground arith) in
      let quiet = poll_reconnect-Trusted baseline start n deadline seen s true later a in
      let same = poll_reconnect-Trusted baseline start n deadline seen s confirmed later a b in
      let done = trust baseline start seen s h a in let quiet_now = silence seen s h in ground arith

  -- When the wait says that the board is back, the heartbeat count had not moved for 2 s or more
  -- before the heartbeat that it trusts.
  pub wait_for_reconnect-Trusted :
      (baseline : ℕ) (h : List (Effect F32))
      → (wait_for_reconnect e baseline h).1 ≡ true
      → Trusted baseline h (wait_for_reconnect e baseline h).0
  unfolding wait_for_reconnect Since
  wait_for_reconnect-Trusted baseline h q =
      poll_reconnect-Trusted baseline h 241 (now h + 60000) baseline h false h (inl (refl, refl))
        (ground arith) q

  -- With enough fuel for the time that is left, more fuel changes nothing.
  poll_reconnect-fuel :
      ((d : ℕ) (h : List (Effect F32)) → now h + d ≤ now (slept d ∷ h))
      → (k n deadline seen start : ℕ) (c : Bool) (h : List (Effect F32)) → n ≤ k
      → deadline ≤ now h + n * 250
      → poll_reconnect e (suc k) deadline seen start c h
        ≡ poll_reconnect e (suc n) deadline seen start c h
  unfolding poll_reconnect
  poll_reconnect-fuel clock zero zero deadline seen start c h l q = refl
  poll_reconnect-fuel clock zero (suc n) deadline seen start c h l q = ground arith
  poll_reconnect-fuel clock (suc k) zero deadline seen start c h l q = ground arith
  poll_reconnect-fuel clock (suc k) (suc n) deadline seen start c h l q =
      let later = slept 250 ∷ h in
      let t = clock 250 h in
      let a : n ≤ k = omega arith in
      let b : deadline ≤ now later + n * 250 = omega arith in
      let r1 =
        poll_reconnect-fuel clock k n deadline (heartbeat_status h).0 (now h) false later a b in
      let r2 = poll_reconnect-fuel clock k n deadline seen start true later a b in
      let r3 = poll_reconnect-fuel clock k n deadline seen start c later a b in ground arith

  -- If a sleep lasts at least as long as asked, the wait with 241 polls does the same as with any
  -- larger number: the deadline ends it.
  pub wait_for_reconnect-ends :
      ((d : ℕ) (h : List (Effect F32)) → now h + d ≤ now (slept d ∷ h))
      → (fuel baseline : ℕ) (h : List (Effect F32)) → 241 ≤ fuel
      → poll_reconnect e fuel (now h + 60000) baseline (now h) false h
        ≡ wait_for_reconnect e baseline h
  unfolding wait_for_reconnect
  wait_for_reconnect-ends clock zero baseline h l = ground arith
  wait_for_reconnect-ends clock (suc k) baseline h l =
      poll_reconnect-fuel clock k 240 (now h + 60000) baseline (now h) false h (omega arith)
        (omega arith)
