-- ===== src/Emission/Drops.antt =====
-- The lines about dropped messages: what they name, and when the alarm is raised.
use hitl_daemon.Base.{
  ℕ, ◌+◌, ◌-◌, ◌≤◌, ◌≡◌, refl, sym, subst, Bool, true, false, leb, if◌then◌else◌, Option, none,
  some, List, [], ◌∷◌, arith,
}
use hitl_daemon.Provision.{Sent, sent, full, disconnected}
use hitl_daemon.Emission.{
  drop_warn_interval, drop_error_threshold, Line, warned, alarmed, Queue, or_now, on_full,
  on_sensor, on_gps, State, Emission, queue_gps, sample_and_send_sensors,
}

-- The drops that a line names.
abbrev pub named : Option Line → ℕ
named none = 0
named (some (warned n)) = n
named (some alarmed) = 0

on_sensor-named :
    (now : ℕ) (o : Sent) (q : Queue)
    → let r = on_sensor now o q in
      named r.1 + r.0.drop_count_since_last_warning + q.sensor_drops
      ≡ q.drop_count_since_last_warning + r.0.sensor_drops
unfolding on_sensor on_full
on_sensor-named now sent q = omega arith
on_sensor-named now full q = ground arith
on_sensor-named now disconnected q = omega arith

queue_gps-named :
    (A I M B G : Type 0) (gps : Option G) (o : Sent) (q : Queue)
    → (queue_gps A I M B G gps o q).drop_count_since_last_warning + q.sensor_drops
      ≡ q.drop_count_since_last_warning + (queue_gps A I M B G gps o q).sensor_drops
unfolding on_gps
queue_gps-named A I M B G none o q = omega arith
queue_gps-named A I M B G (some gps) sent q = omega arith
queue_gps-named A I M B G (some gps) full q = omega arith
queue_gps-named A I M B G (some gps) disconnected q = omega arith

module _ (A I M B G : Type 0) where
  -- The iterations of one session, and the drops that their lines name.
  abbrev pub after_all : State A I M B G → List (Emission A I M B G) → State A I M B G
  after_all s [] = s
  after_all s (x ∷ xs) = after_all (sample_and_send_sensors A I M B G s x).state xs

  abbrev pub named_by : State A I M B G → List (Emission A I M B G) → ℕ
  named_by s [] = 0
  named_by s (x ∷ xs) =
      let r = sample_and_send_sensors A I M B G s x in named r.line + named_by r.state xs

  -- Over any iterations, the drops that warnings name and those that wait to be named at the end
  -- are those that waited at the start and those counted in between.
  pub after_all-named :
      (s : State A I M B G) (xs : List (Emission A I M B G))
      → let t = after_all s xs in
        named_by s xs + t.queue.drop_count_since_last_warning + s.queue.sensor_drops
        ≡ s.queue.drop_count_since_last_warning + t.queue.sensor_drops
  unfolding sample_and_send_sensors
  after_all-named s [] = omega arith
  after_all-named s (x ∷ xs) =
      let r = sample_and_send_sensors A I M B G s x in
      let a = on_sensor-named x.now x.sensor_sent s.queue in
      let b =
        queue_gps-named A I M B G x.gps x.gps_sent (on_sensor x.now x.sensor_sent s.queue).0 in
      let c = after_all-named r.state xs in omega (arith, a, b, c)

  -- When the channel last took a message.
  abbrev pub taken : Sent → ℕ → ℕ → ℕ
  taken sent now last = now
  taken full now last = last
  taken disconnected now last = last

  -- The clock does not go back.
  abbrev pub Ordered : ℕ → List (Emission A I M B G) → Type 0
  Ordered t [] = Unit {0}
  Ordered t (x ∷ xs) = (t ≤ x.now) × Ordered x.now xs

  abbrev Late : Option Line → ℕ → ℕ → Type 0
  Late (some alarmed) last now = last + drop_error_threshold ≤ now
  Late line last now = Unit {0}

  -- An alarm comes two seconds or more after the channel last took a message.
  abbrev pub Justified : ℕ → State A I M B G → List (Emission A I M B G) → Type 0
  Justified last s [] = Unit {0}
  Justified last s (x ∷ xs) =
      let r = sample_and_send_sensors A I M B G s x in
      Late r.line last x.now × Justified (taken x.sensor_sent x.now last) r.state xs

  -- Since the time it is full the channel took nothing.
  abbrev FullAfter : ℕ → Option ℕ → Type 0
  FullAfter last none = Unit {0}
  FullAfter last (some since) = last ≤ since

  or_now-FullAfter :
      (last now : ℕ) (o : Option ℕ) → last ≤ now → FullAfter last o → last ≤ or_now o now
  or_now-FullAfter last now none h k = h
  or_now-FullAfter last now (some since) h k = k

  abbrev Kept : ℕ → ℕ → Queue × Option Line → Type 0
  Kept last now (q, line) = FullAfter last q.channel_full_since × Late line last now

  Kept-if :
      (t : Bool) (last now : ℕ) (x y : Queue × Option Line)
      → (t ≡ true → Kept last now x)
      → (t ≡ false → Kept last now y)
      → Kept last now (if t then x else y)
  Kept-if true last now x y f g = f refl
  Kept-if false last now x y f g = g refl

  on_full-Kept :
      (last now : ℕ) (q : Queue)
      → last ≤ now
      → FullAfter last q.channel_full_since
      → Kept last now (on_full now q)
  unfolding on_full
  on_full-Kept last now q h k =
      let since = or_now-FullAfter last now q.channel_full_since h k in
      Kept-if (leb drop_error_threshold (now - or_now q.channel_full_since now)) last now _ _
        (λ t. (h, ground (arith, t, since)))
        (λ t.
          Kept-if (leb drop_warn_interval (now - q.last_drop_warning)) last now _ _
            (λ u. (since, tt)) (λ u. (since, tt)))

  on_sensor-Kept :
      (last now : ℕ) (o : Sent) (q : Queue)
      → last ≤ now
      → FullAfter last q.channel_full_since
      → FullAfter (taken o now last) (on_sensor now o q).0.channel_full_since
        × Late (on_sensor now o q).1 last now
  unfolding on_sensor
  on_sensor-Kept last now sent q h k = (tt, tt)
  on_sensor-Kept last now full q h k = on_full-Kept last now q h k
  on_sensor-Kept last now disconnected q h k = (k, tt)

  queue_gps-same :
      (gps : Option G) (o : Sent) (q : Queue)
      → (queue_gps A I M B G gps o q).channel_full_since ≡ q.channel_full_since
  unfolding on_gps
  queue_gps-same none o q = refl
  queue_gps-same (some gps) sent q = refl
  queue_gps-same (some gps) full q = refl
  queue_gps-same (some gps) disconnected q = refl

  taken_bound : (o : Sent) (now last : ℕ) → last ≤ now → taken o now last ≤ now
  taken_bound sent now last h = omega arith
  taken_bound full now last h = h
  taken_bound disconnected now last h = h

  earlier-Ordered : (xs : List (Emission A I M B G)) (s t : ℕ) → s ≤ t → Ordered t xs → Ordered s xs
  earlier-Ordered [] s t h o = tt
  earlier-Ordered (x ∷ xs) s t h (a, o) = (omega (arith, h, a), o)

  -- Over iterations whose clock does not go back, from a queue that, if it is full, took nothing
  -- since that time, the alarm of a full channel comes two seconds or more after the channel last
  -- took a sensor message.
  pub sample_and_send_sensors-Justified :
      (last : ℕ) (s : State A I M B G) (xs : List (Emission A I M B G))
      → Ordered last xs
      → FullAfter last s.queue.channel_full_since
      → Justified last s xs
  unfolding sample_and_send_sensors
  sample_and_send_sensors-Justified last s [] o k = tt
  sample_and_send_sensors-Justified last s (x ∷ xs) (h, o) k =
      let (a, b) = on_sensor-Kept last x.now x.sensor_sent s.queue h k in
      let next = taken x.sensor_sent x.now last in
      (
        b,
        sample_and_send_sensors-Justified next (sample_and_send_sensors A I M B G s x).state xs
            (earlier-Ordered xs next x.now (taken_bound x.sensor_sent x.now last h) o)
            (subst (FullAfter next)
              (sym (queue_gps-same x.gps x.gps_sent (on_sensor x.now x.sensor_sent s.queue).0)) a),
      )
