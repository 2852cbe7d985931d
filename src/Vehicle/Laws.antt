-- ===== src/Vehicle/Laws.antt =====
-- The shared state over sequences of locked accesses, and the actuator input.
use hitl_daemon.Base.{
  ℕ, ◌+◌, ◌≤◌, ◌<◌, ◌≡◌, ◌⊎◌, refl, sym, ◌∙◌, true, false, Option, none, some, List, [], ◌∷◌, ◌++◌,
  length, length-append, u64_max, arith,
}
use hitl_daemon.Vehicle.{
  Physics, ActuatorOutputs, SimulationState, Access, mark_fc_lost, reconfigure, perform,
  perform_all, reset_inner, Actuation, process_actuator_commands, actuator_stale_timeout, latest,
}

module _ (p : Physics) where
  open p use {Config, Motors, stopped, active}

  -- The configuration an access leaves, and the one a sequence leaves.
  abbrev pub reconfigured : Config → Access p → Config
  reconfigured c a = elim a [ reconfigure d ↦ d | _ ↦ c ]

  abbrev pub last_config : Config → List (Access p) → Config
  last_config c [] = c
  last_config c (a ∷ rest) = last_config (reconfigured c a) rest

  -- The clock is the loop's, and the process's run flag and link counters outlive a vehicle reset.
  pub Kept : SimulationState p → SimulationState p → Type 0
  Kept s t =
      (t.inner.sim_time_us ≡ s.inner.sim_time_us)
      × (s.inner.heartbeat_count ≤ t.inner.heartbeat_count)
      × ((s.inner.running ≡ true) ⊎ (t.inner.running ≡ false))

  perform-Kept :
      (s : SimulationState p) (a : Access p)
      → s.inner.heartbeat_count ≤ u64_max
      → Kept s (perform p s a) × (perform p s a).inner.heartbeat_count ≤ u64_max
  unfolding perform Kept reset_inner
  perform-Kept s a h = ground arith

  -- Any sequence of accesses leaves the simulation clock alone, does not lower a heartbeat count
  -- within u64, and does not restart a stopped loop.
  pub perform_all-Kept :
      (s : SimulationState p) (xs : List (Access p))
      → s.inner.heartbeat_count ≤ u64_max
      → ((perform_all p s xs).inner.sim_time_us ≡ s.inner.sim_time_us)
        × (s.inner.heartbeat_count ≤ (perform_all p s xs).inner.heartbeat_count)
        × ((s.inner.running ≡ true) ⊎ ((perform_all p s xs).inner.running ≡ false))
  unfolding perform_all Kept
  perform_all-Kept s [] h = (refl, omega arith, ground arith)
  perform_all-Kept s (a ∷ xs) h =
      let ((t, c, r), h2) = perform-Kept s a h in
      let (t2, c2, r2) = perform_all-Kept (perform p s a) xs h2 in
      (t2 ∙ t, omega arith, ground arith)

  -- After any sequence of accesses the configuration is the one that the last reconfiguration
  -- asked for, or the one before the sequence if there was none.
  pub perform_all-config :
      (s : SimulationState p) (xs : List (Access p))
      → (perform_all p s xs).config ≡ last_config s.config xs
  unfolding perform_all perform
  perform_all-config s [] = refl
  perform_all-config s (a ∷ xs) =
      let e : (perform p s a).config ≡ reconfigured s.config a = ground arith in
      rw (sym e) (perform_all-config (perform p s a) xs)

  -- Losing the flight controller disarms the vehicle, stops its motors and ends a stall, whatever
  -- came before it.
  pub lost_fc-at_rest :
      (s : SimulationState p) (xs : List (Access p))
      → ((perform_all p s (xs ++ mark_fc_lost ∷ [])).inner.armed ≡ false)
        × ((perform_all p s (xs ++ mark_fc_lost ∷ [])).inner.motor_commands ≡ stopped)
        × ((perform_all p s (xs ++ mark_fc_lost ∷ [])).inner.board_stall ≡ false)
  unfolding perform_all perform
  lost_fc-at_rest s [] = (refl, refl, refl)
  lost_fc-at_rest s (a ∷ xs) = lost_fc-at_rest (perform p s a) xs

  newest :
      (xs : List (ActuatorOutputs Motors)) (x : ActuatorOutputs Motors)
      (found : Option (ActuatorOutputs Motors))
      → latest p found (xs ++ x ∷ []) ≡ some x
  unfolding latest
  newest [] x found = refl
  newest (y ∷ ys) x found = newest ys x (some y)

  -- Of the pending actuator commands the newest is flown, it ends a stall, every one is counted,
  -- and the time of the last command is now.
  pub commands_flown :
      (a : Actuation p) (pending : List (ActuatorOutputs Motors)) (out : ActuatorOutputs Motors)
      (now : ℕ)
      → ((process_actuator_commands p a (pending ++ out ∷ []) now).state.motor_commands
          ≡ out.motors)
        × ((process_actuator_commands p a (pending ++ out ∷ []) now).state.armed ≡ out.is_armed)
        × ((process_actuator_commands p a (pending ++ out ∷ []) now).state.board_stall ≡ false)
        × ((process_actuator_commands p a (pending ++ out ∷ []) now).actuator_count
            ≡ a.actuator_count + length pending + 1)
        × ((process_actuator_commands p a (pending ++ out ∷ []) now).last_actuator_time ≡ now)
  unfolding process_actuator_commands latest
  commands_flown a pending out now =
      let e = newest pending out none in
      let l = length-append pending (out ∷ []) in
      rw (e, process_actuator_commands) (refl, refl, refl, omega arith, refl)

  -- With no command pending, an active command older than 100 ms is replaced by stopped motors and
  -- a stall is marked, while the vehicle stays armed and the count and the time of the last
  -- command stand.
  pub silence_stalls :
      (a : Actuation p) (now : ℕ)
      → active a.state.motor_commands ≡ true
      → a.last_actuator_time + actuator_stale_timeout < now
      → ((process_actuator_commands p a [] now).state.motor_commands ≡ stopped)
        × ((process_actuator_commands p a [] now).state.board_stall ≡ true)
        × ((process_actuator_commands p a [] now).state.armed ≡ a.state.armed)
        × ((process_actuator_commands p a [] now).actuator_count ≡ a.actuator_count)
        × ((process_actuator_commands p a [] now).last_actuator_time ≡ a.last_actuator_time)
  unfolding process_actuator_commands latest
  silence_stalls a now h q = ground arith

  -- With no command pending and the last one within the timeout, nothing changes.
  pub silence_within :
      (a : Actuation p) (now : ℕ)
      → now ≤ a.last_actuator_time + actuator_stale_timeout
      → process_actuator_commands p a [] now ≡ a
  unfolding process_actuator_commands latest
  silence_within a now q = ground arith
