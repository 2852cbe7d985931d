-- ===== src/Handler/CommandLaws.antt =====
-- What a command of the browser does: the arming gate, the commands that end a flight, the answer.
use hitl_daemon.Base.{
  ℕ, Bool, true, false, ◌+◌, ◌≡◌, ◌≢◌, ◌⊎◌, inl, inr, refl, ap, ◌∙◌, if◌then◌else◌, Option, none,
  some, [], ◌∷◌, ◌++◌,
}
use hitl_daemon.Stats.{SimulationStats}
use hitl_daemon.Gate.{
  Refusal, refuses, flight_in_progress, timebase_arming_gate, session_is_compromised,
}
use hitl_daemon.Session.Latch.{gate-compromised}
use hitl_daemon.Protocol.Errors.{
  CommandType, arm, disarm, takeoff, land, rtl, set_mode, emergency_stop, recharge, reset_vehicle,
}
use hitl_daemon.Protocol.Commands.{Command}
use hitl_daemon.Handler.Rate.{RateLimits, check_rate_limit}
use hitl_daemon.Handler.Command.{
  begins_a_flight, is_recharge, CommandError, command_channel_closed, recharge_unavailable,
  rate_limited, arming_refused, Ack, Preflight, Handler, arming_refusal, refusal_of,
  validate_command, refused, accepted, send, send_unless, gate_and_send, call_recharge,
  handle_admitted, handle_command,
}

-- Nothing was sent and no recharge was called for.
pub record Unchanged (before after : Handler) : Type 0 where
  pub recharges : after.recharges ≡ before.recharges
  pub forwarded : after.forwarded ≡ before.forwarded

-- This one command was sent, under the client's number.
pub record Sent (before : Handler) (client_id : ℕ) (cmd : Command) (after : Handler) : Type 0 where
  pub recharges : after.recharges ≡ before.recharges
  pub forwarded :
      after.forwarded ≡ before.forwarded ++ (record { command = cmd; client_id = client_id } ∷ [])

pub record Recharged (before after : Handler) : Type 0 where
  pub recharges : after.recharges ≡ before.recharges + 1
  pub forwarded : after.forwarded ≡ before.forwarded

-- The answer names the command, and says whether it took effect.
pub record Answered (before : Handler) (client_id : ℕ) (cmd : Command) (r : Handler × Ack)
    : Type 0 where
  pub command_id : r.1.command_id ≡ cmd.command_id
  pub effect :
      ((r.1.success ≡ true)
        × (r.1.error ≡ none)
        × (Sent before client_id cmd r.0 ⊎ Recharged before r.0))
      ⊎ ((r.1.success ≡ false) × (r.1.error ≢ none) × Unchanged before r.0)

module _ (f32_lt : ℕ → ℕ → Bool) where
  module _ (h : Handler) (client_id : ℕ) (cmd : Command) where
    refused-Answered : (e : CommandError) → Answered h client_id cmd (h, refused f32_lt cmd e)
    refused-Answered e = record {
      command_id = refl;
      effect = inr (refl, (λ q. absurd (cc q)), record { recharges = refl; forwarded = refl });
    }

    accepted-Answered :
        (after : Handler)
        → Sent h client_id cmd after ⊎ Recharged h after
        → Answered h client_id cmd (after, accepted f32_lt cmd)
    accepted-Answered after e = record { command_id = refl; effect = inl (refl, refl, e) }

    Answered-if :
        (t : Bool) (x y : Handler × Ack)
        → Answered h client_id cmd x
        → Answered h client_id cmd y
        → Answered h client_id cmd (if t then x else y)
    Answered-if true x y hx hy = hx
    Answered-if false x y hx hy = hy

    send-Answered : Answered h client_id cmd (send f32_lt h client_id cmd)
    send-Answered =
        Answered-if h.channel_open _ _
          (accepted-Answered _ (inl record { recharges = refl; forwarded = refl }))
          (refused-Answered command_channel_closed)

    send_unless-Answered :
        (r : Option Refusal) → Answered h client_id cmd (send_unless f32_lt r h client_id cmd)
    send_unless-Answered none = send-Answered
    send_unless-Answered (some r) = refused-Answered (arming_refused r)

    gate_and_send-Answered :
        (e : Option CommandError)
        → Answered h client_id cmd (gate_and_send f32_lt e h client_id cmd)
    gate_and_send-Answered (some e) = refused-Answered e
    gate_and_send-Answered none =
        Answered-if (begins_a_flight cmd.command_type) _ _
          (send_unless-Answered (refusal_of h.preflight)) send-Answered

    handle_admitted-Answered : Answered h client_id cmd (handle_admitted f32_lt h client_id cmd)
    handle_admitted-Answered =
        Answered-if (is_recharge cmd.command_type) _ _
          (Answered-if h.can_recharge _ _
            (accepted-Answered _ (inr record { recharges = refl; forwarded = refl }))
            (refused-Answered recharge_unavailable))
          (gate_and_send-Answered (validate_command f32_lt cmd))

  -- The counting of a request changes neither the queue nor the recharges.
  uncounted :
      (limits : RateLimits) (h : Handler) (client_id : ℕ) (cmd : Command) (r : Handler × Ack)
      → Answered (record h { rate_limits = limits }) client_id cmd r
      → Answered h client_id cmd r
  uncounted limits h client_id cmd r a = record {
    command_id = a.command_id;
    effect = elim a.effect [
      | inl (ok, clean, inl s) ↦
          inl (ok, clean, inl record { recharges = s.recharges; forwarded = s.forwarded })
      | inl (ok, clean, inr s) ↦
          inl (ok, clean, inr record { recharges = s.recharges; forwarded = s.forwarded })
      | inr (bad, why, u) ↦
          inr (bad, why, record { recharges = u.recharges; forwarded = u.forwarded })
    ];
  }

  -- The answer to a command names the command, and either it reports success without an error and
  -- the command was sent once under the client's number or one recharge was called for, or it
  -- reports failure with an error and nothing was sent or called for.
  pub handle_command-Answered :
      (h : Handler) (now client_id : ℕ) (cmd : Command)
      → Answered h client_id cmd (handle_command f32_lt h now client_id cmd)
  unfolding handle_command
  handle_command-Answered h now client_id cmd =
      let limited = check_rate_limit h.rate_limits client_id now in
      let counted = record h { rate_limits = limited.0 } in
      uncounted limited.0 h client_id cmd (handle_command f32_lt h now client_id cmd) (
        Answered-if counted client_id cmd limited.1 (handle_admitted f32_lt counted client_id cmd)
          (counted, refused f32_lt cmd rate_limited)
          (handle_admitted-Answered counted client_id cmd)
          (refused-Answered counted client_id cmd rate_limited))

  refuses-some : (o : Option Refusal) → refuses o ≡ true → (r : Refusal) × (o ≡ some r)
  unfolding refuses
  refuses-some none e = absurd (cc e)
  refuses-some (some r) e = (r, refl)

  -- Whether the aircraft is on the ground of a session whose time is not to be trusted.
  abbrev pub Compromised : Option Preflight → Type 0
  Compromised none = ⊥
  Compromised (some p) =
      (stats : SimulationStats) × (p.timebase_stats ≡ some stats)
      × (session_is_compromised stats ≡ true)
      × (flight_in_progress p.armed p.landed_state ≡ false)

  refusal_of-Compromised :
      (p : Option Preflight) → Compromised p → (r : Refusal) × (refusal_of p ≡ some r)
  unfolding arming_refusal
  refusal_of-Compromised none c = absurd c
  refusal_of-Compromised (some p) (stats, known, bad, grounded) =
      let asked : arming_refusal p
          ≡ timebase_arming_gate stats (flight_in_progress p.armed p.landed_state) =
        rw (known, arming_refusal) refl in
      refuses-some (arming_refusal p) (
        ap refuses asked
        ∙ (gate-compromised stats (flight_in_progress p.armed p.landed_state)
            ∙ rw grounded rw bad refl))

  send_unless-refused :
      (o : Option Refusal) (h : Handler) (client_id : ℕ) (cmd : Command) (r : Refusal)
      → o ≡ some r
      → (send_unless f32_lt o h client_id cmd).1.success ≡ false
  send_unless-refused none h client_id cmd r e = absurd (cc e)
  send_unless-refused (some s) h client_id cmd r e = refl

  gate_and_send-refused :
      (e : Option CommandError) (h : Handler) (client_id : ℕ) (cmd : Command)
      → begins_a_flight cmd.command_type ≡ true
      → Compromised h.preflight
      → (gate_and_send f32_lt e h client_id cmd).1.success ≡ false
  gate_and_send-refused (some e) h client_id cmd begins bad = refl
  gate_and_send-refused none h client_id cmd begins bad =
      let found = refusal_of-Compromised h.preflight bad in
      rw begins (send_unless-refused (refusal_of h.preflight) h client_id cmd found.0 found.1)

  begins-recharge : (t : CommandType) → begins_a_flight t ≡ true → is_recharge t ≡ false
  unfolding begins_a_flight
  begins-recharge arm e = refl
  begins-recharge takeoff e = refl
  begins-recharge disarm e = refl
  begins-recharge land e = refl
  begins-recharge rtl e = refl
  begins-recharge set_mode e = refl
  begins-recharge emergency_stop e = refl
  begins-recharge recharge e = absurd (cc e)
  begins-recharge reset_vehicle e = refl

  failure-if :
      (t : Bool) (x y : Handler × Ack)
      → (t ≡ true → x.1.success ≡ false)
      → (t ≡ false → y.1.success ≡ false)
      → (if t then x else y).1.success ≡ false
  failure-if true x y hx hy = hx refl
  failure-if false x y hx hy = hy refl

  handle_command-refused :
      (h : Handler) (now client_id : ℕ) (cmd : Command)
      → begins_a_flight cmd.command_type ≡ true
      → Compromised h.preflight
      → (handle_command f32_lt h now client_id cmd).1.success ≡ false
  unfolding handle_command
  handle_command-refused h now client_id cmd begins bad =
      let limited = check_rate_limit h.rate_limits client_id now in
      let counted = record h { rate_limits = limited.0 } in
      let plain = begins-recharge cmd.command_type begins in
      failure-if limited.1 (handle_admitted f32_lt counted client_id cmd)
        (counted, refused f32_lt cmd rate_limited)
        (λ _.
          failure-if (is_recharge cmd.command_type) (call_recharge f32_lt counted cmd)
            (gate_and_send f32_lt (validate_command f32_lt cmd) counted client_id cmd)
            (λ e. absurd (cc (e, plain)))
            (λ _.
              gate_and_send-refused (validate_command f32_lt cmd) counted client_id cmd begins bad))
        (λ _. refl)

  failed-Unchanged :
      (before : Handler) (client_id : ℕ) (cmd : Command) (r : Handler × Ack)
      → Answered before client_id cmd r
      → r.1.success ≡ false
      → Unchanged before r.0
  failed-Unchanged before client_id cmd r a failed = elim a.effect [
    | inl (ok, clean, s) ↦ absurd (cc (ok, failed))
    | inr (bad, why, u) ↦ u
  ]

  starts-begins : (t : CommandType) → (t ≡ arm) ⊎ (t ≡ takeoff) → begins_a_flight t ≡ true
  unfolding begins_a_flight
  starts-begins t (inl e) = ap begins_a_flight e
  starts-begins t (inr e) = ap begins_a_flight e

  -- While the published figures are of a compromised session and no flight is in progress, a
  -- command to arm or to take off is answered with failure and nothing is sent.
  pub handle_command-Compromised :
      (h : Handler) (now client_id : ℕ) (cmd : Command)
      → (cmd.command_type ≡ arm) ⊎ (cmd.command_type ≡ takeoff)
      → Compromised h.preflight
      → ((handle_command f32_lt h now client_id cmd).1.success ≡ false)
        × Unchanged h (handle_command f32_lt h now client_id cmd).0
  handle_command-Compromised h now client_id cmd asks bad =
      let begins = starts-begins cmd.command_type asks in
      let failed = handle_command-refused h now client_id cmd begins bad in
      (
        failed,
        failed-Unchanged h client_id cmd (handle_command f32_lt h now client_id cmd)
            (handle_command-Answered h now client_id cmd) failed,
      )

  -- The commands that end a flight.
  abbrev pub ends_a_flight : CommandType → Bool
  ends_a_flight disarm = true
  ends_a_flight land = true
  ends_a_flight rtl = true
  ends_a_flight emergency_stop = true
  ends_a_flight other = false

  if-Sent :
      (h : Handler) (client_id : ℕ) (cmd : Command) (t : Bool) (x y : Handler × Ack)
      → t ≡ true
      → Sent h client_id cmd x.0
      → Sent h client_id cmd (if t then x else y).0
  if-Sent h client_id cmd true x y e s = s
  if-Sent h client_id cmd false x y e s = absurd (cc e)

  send-Sent :
      (h : Handler) (client_id : ℕ) (cmd : Command)
      → h.channel_open ≡ true
      → Sent h client_id cmd (send f32_lt h client_id cmd).0
  send-Sent h client_id cmd opens =
      if-Sent h client_id cmd h.channel_open _ _ opens record { recharges = refl; forwarded = refl }

  -- A command with these fields.
  abbrev command_of : ℕ → CommandType → Option ℕ → Option ℕ → Command
  command_of id t a m = record {
    command_id = id;
    command_type = t;
    takeoff_altitude = a;
    set_mode_value = m;
  }

  handle_admitted-ends :
      (h : Handler) (client_id id : ℕ) (t : CommandType) (a m : Option ℕ)
      → ends_a_flight t ≡ true
      → h.channel_open ≡ true
      → Sent h client_id
          (command_of id t a m)
          (handle_admitted f32_lt h client_id (command_of id t a m)).0
  unfolding validate_command begins_a_flight
  handle_admitted-ends h client_id id disarm a m ends opens =
      send-Sent h client_id (command_of id disarm a m) opens
  handle_admitted-ends h client_id id land a m ends opens =
      send-Sent h client_id (command_of id land a m) opens
  handle_admitted-ends h client_id id rtl a m ends opens =
      send-Sent h client_id (command_of id rtl a m) opens
  handle_admitted-ends h client_id id emergency_stop a m ends opens =
      send-Sent h client_id (command_of id emergency_stop a m) opens
  handle_admitted-ends h client_id id arm a m ends opens = absurd (cc ends)
  handle_admitted-ends h client_id id takeoff a m ends opens = absurd (cc ends)
  handle_admitted-ends h client_id id set_mode a m ends opens = absurd (cc ends)
  handle_admitted-ends h client_id id recharge a m ends opens = absurd (cc ends)
  handle_admitted-ends h client_id id reset_vehicle a m ends opens = absurd (cc ends)

  -- A command to disarm, land, return or stop that is within the client's rate is sent while the
  -- channel is open, whatever the figures of the simulation.
  pub handle_command-ends :
      (h : Handler) (now client_id : ℕ) (cmd : Command)
      → ends_a_flight cmd.command_type ≡ true
      → h.channel_open ≡ true
      → (check_rate_limit h.rate_limits client_id now).1 ≡ true
      → Sent h client_id cmd (handle_command f32_lt h now client_id cmd).0
  unfolding handle_command
  handle_command-ends h now client_id cmd ends opens within =
      let limited = check_rate_limit h.rate_limits client_id now in
      let counted = record h { rate_limits = limited.0 } in
      let s =
        handle_admitted-ends counted client_id cmd.command_id cmd.command_type cmd.takeoff_altitude
          cmd.set_mode_value ends opens in
      if-Sent h client_id cmd limited.1 (handle_admitted f32_lt counted client_id cmd)
        (counted, refused f32_lt cmd rate_limited) within
        record { recharges = s.recharges; forwarded = s.forwarded }
