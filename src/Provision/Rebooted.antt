-- ===== src/Provision/Rebooted.antt =====
-- crates/websocket/src/preflight.rs: what a reboot that succeeds has put on the board's queues.
use hitl_daemon.Base.{
  ℕ, zero, suc, ◌+◌, Bool, true, false, not, ◌&&◌, leb, ltb, ◌≡◌, ◌⊎◌, inl, inr, refl, sym, subst,
  none, List, [], ◌∷◌, arith, Bool-cases,
}
use hitl_daemon.Provision.{
  param_save, sent, rebooting, reconnecting, Effect, tried, slept, told_restore, asked_nsh, Env,
  send_attempts, send_with_backpressure,
}
use hitl_daemon.Provision.Answers.{Extends, Extends-trans}
use hitl_daemon.Provision.Cycle.{
  quiet_period, poll_reconnect, reconnect_poll_interval, reconnect_timeout, reconnect_fuel,
  wait_for_reconnect, param_save_settle_delay, save_and_reboot,
}
use hitl_daemon.Provision.Written.{send_attempts-Taken}

module _ (e : Env) where
  open e use {F32}

  abbrev History : Type 0
  History = List (Effect F32)

  poll_reconnect-cases :
      (n deadline last_seen quiet_start : ℕ) (confirmed : Bool) (h : History)
      → ((poll_reconnect e (suc n) deadline last_seen quiet_start confirmed h).0 ≡ h)
        ⊎ ((seen start : ℕ) × (quiet : Bool) × (poll_reconnect e
                (suc n)
                deadline
                last_seen
                quiet_start
                confirmed
                h
              ≡ poll_reconnect e n deadline seen start quiet (slept reconnect_poll_interval ∷ h)))
  unfolding poll_reconnect
  poll_reconnect-cases n deadline last_seen quiet_start confirmed h =
      elim (Bool-cases (leb deadline (e.now h))) [
        | inl d ↦ elim (Bool-cases (ltb last_seen (e.heartbeat_status h).0)) [
          | inl l ↦ elim (Bool-cases confirmed) [
            | inl c ↦ inl (rw (l, poll_reconnect) rw c refl)
            | inr c ↦ inl (rw (l, poll_reconnect) rw c rw d refl)
          ]
          | inr l ↦
              elim (Bool-cases (not confirmed && leb (quiet_start + quiet_period) (e.now h))) [
                | inl c ↦ inl (rw (l, poll_reconnect) rw c rw d refl)
                | inr c ↦ inl (rw (l, poll_reconnect) rw c rw d refl)
              ]
        ]
        | inr d ↦ elim (Bool-cases (ltb last_seen (e.heartbeat_status h).0)) [
          | inl l ↦ elim (Bool-cases confirmed) [
            | inl c ↦ inl (rw (l, poll_reconnect) rw c refl)
            | inr c ↦
                inr
                  ((e.heartbeat_status h).0, e.now h, false, rw (l, poll_reconnect) rw c rw d refl)
          ]
          | inr l ↦
              elim (Bool-cases (not confirmed && leb (quiet_start + quiet_period) (e.now h))) [
                | inl c ↦ inr (last_seen, quiet_start, true, rw (l, poll_reconnect) rw c rw d refl)
                | inr c ↦
                    inr (last_seen, quiet_start, confirmed, rw (l, poll_reconnect) rw c rw d refl)
              ]
        ]
      ]

  poll_reconnect-Extends :
      (n deadline last_seen quiet_start : ℕ) (confirmed : Bool) (h : History)
      → Extends e h (poll_reconnect e n deadline last_seen quiet_start confirmed h).0
  unfolding poll_reconnect
  poll_reconnect-Extends zero deadline last_seen quiet_start confirmed h = ([], refl)
  poll_reconnect-Extends (suc n) deadline last_seen quiet_start confirmed h =
      elim (poll_reconnect-cases n deadline last_seen quiet_start confirmed h) [
        | inl p ↦ ([], p)
        | inr (seen, start, quiet, p) ↦
            subst (λ r. Extends e h r.0) (sym p)
              (Extends-trans e h (slept reconnect_poll_interval ∷ h) _
                (slept reconnect_poll_interval ∷ [], refl)
                (poll_reconnect-Extends n deadline seen start quiet _))
      ]

  wait_for_reconnect-Extends :
      (baseline : ℕ) (h : History) → Extends e h (wait_for_reconnect e baseline h).0
  unfolding wait_for_reconnect
  wait_for_reconnect-Extends baseline h =
      poll_reconnect-Extends (reconnect_fuel e) (e.now h + reconnect_timeout) baseline (e.now h)
        false h

  -- Between two histories PARAM_SAVE went out, then, after the pause, the reboot.
  abbrev pub Rebooted : List (Effect F32) → List (Effect F32) → Type 0
  Rebooted from to =
      (h : List (Effect F32)) × Extends e from h
      × (e.try_send h param_save ≡ sent)
      × (e.nsh_accepts
            (told_restore rebooting ∷ slept param_save_settle_delay ∷ tried param_save sent ∷ h)
          ≡ true)
      × Extends e
          (asked_nsh
            ∷ told_restore rebooting
            ∷ slept param_save_settle_delay
            ∷ tried param_save sent
            ∷ h)
          to

  pub save_and_reboot-Rebooted :
      (h : List (Effect F32))
      → (save_and_reboot e told_restore h).1 ≡ none
      → Rebooted h (save_and_reboot e told_restore h).0
  unfolding save_and_reboot wait_for_reconnect send_with_backpressure
  save_and_reboot-Rebooted h q =
      let out = send_attempts e 40 param_save h in
      let settled : History = slept param_save_settle_delay ∷ out.0 in
      let asked : History =
        told_restore reconnecting ∷ asked_nsh ∷ told_restore rebooting ∷ settled in
      let waited = wait_for_reconnect e (e.heartbeat_status settled).0 asked in
      let gone : out.1 ≡ none = ground arith in
      let taken : e.nsh_accepts (told_restore rebooting ∷ settled) ≡ true = ground arith in
      let end : (save_and_reboot e told_restore h).0 ≡ waited.0 = ground arith in
      let (k, x, t, w) = send_attempts-Taken e 40 param_save h gone in
      (
        k,
        x,
        t,
        subst
            (λ l. e.nsh_accepts (told_restore rebooting ∷ slept param_save_settle_delay ∷ l) ≡ true)
            w taken,
        subst
            (λ l.
              Extends e (asked_nsh ∷ told_restore rebooting ∷ slept param_save_settle_delay ∷ l)
                (save_and_reboot e told_restore h).0)
            w
            (subst (Extends e (asked_nsh ∷ told_restore rebooting ∷ settled)) (sym end) (
              Extends-trans e _ asked waited.0 (told_restore reconnecting ∷ [], refl)
                (wait_for_reconnect-Extends (e.heartbeat_status settled).0 asked))),
      )
