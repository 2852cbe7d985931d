-- ===== src/Emission/Readings.antt =====
-- Which readings of a message are new.
use hitl_daemon.Base.{
  ℕ, ◌+◌, ◌≤◌, ◌==◌, ◌≡◌, ◌⊎◌, inl, inr, refl, Bool, true, false, leb, ◌||◌, if◌then◌else◌, Option,
  none, some, List, [], ◌∷◌, arith,
}
use hitl_daemon.Emission.{State, Emission, reading, sample, sample_and_send_sensors}

-- A flagged reading is new, another one repeats the last that was flagged.
abbrev Honest : {R : Type 0} → Bool → Option R → R → R → Type 0
Honest true shown fresh value = value ≡ fresh
Honest false none fresh value = value ≡ fresh
Honest false (some old) fresh value = value ≡ old

-- The last flagged reading.
abbrev shown_after : {R : Type 0} → Bool → Option R → R → Option R
shown_after flag shown value = if flag then some value else shown

module _ (A I M B G : Type 0) where
  abbrev ticked : State A I M B G → State A I M B G
  ticked s = record s { total_ticks = s.total_ticks + 1 }

  -- Over the iterations of a session, for the magnetometer and the barometer.
  abbrev pub Messages : Option M → Option B → State A I M B G → List (Emission A I M B G) → Type 0
  Messages mag baro s [] = Unit {0}
  Messages mag baro s (x ∷ xs) =
      let r = sample_and_send_sensors A I M B G s x in
      Honest r.sensor.mag_flags mag x.mag r.sensor.mag
      × Honest r.sensor.baro_flags baro x.baro r.sensor.baro
      × Messages (shown_after r.sensor.mag_flags mag r.sensor.mag)
          (shown_after r.sensor.baro_flags baro r.sensor.baro) (ticked r.state) xs

  -- The first tick finds both sensors due.
  abbrev Due : State A I M B G → Type 0
  Due s = (1 ≤ s.total_ticks) ⊎ ((s.next_mag_us ≡ 0) × (s.next_baro_us ≡ 0))

  flags_update : (n next t : ℕ) → (1 ≤ n) ⊎ (next ≡ 0) → (leb next t || n == 0) ≡ leb next t
  flags_update n next t h = ground (arith, h)

  first_mag : (s : State A I M B G) → Due s → (1 ≤ s.total_ticks) ⊎ (s.next_mag_us ≡ 0)
  first_mag s (inl h) = inl h
  first_mag s (inr (a, b)) = inr a

  first_baro : (s : State A I M B G) → Due s → (1 ≤ s.total_ticks) ⊎ (s.next_baro_us ≡ 0)
  first_baro s (inl h) = inl h
  first_baro s (inr (a, b)) = inr b

  Honest-reading :
      {R : Type 0} (update : Bool) (last : Option R) (fresh : R)
      → Honest update last fresh (reading A I M B G update last fresh)
  Honest-reading true last fresh = refl
  Honest-reading false none fresh = refl
  Honest-reading false (some old) fresh = refl

  -- Over the iterations from a state whose first tick finds both sensors due, a magnetometer or
  -- barometer reading with its flag set is the new one, and one without repeats the last that had
  -- it, or the kept one before that, and is new where there is neither.
  pub sample_and_send_sensors-Messages :
      (s : State A I M B G) (xs : List (Emission A I M B G))
      → Due s
      → Messages s.last_mag s.last_baro s xs
  unfolding sample_and_send_sensors sample
  sample_and_send_sensors-Messages s [] d = tt
  sample_and_send_sensors-Messages s (x ∷ xs) d =
      let m = flags_update s.total_ticks s.next_mag_us x.sim_time_us (first_mag s d) in
      let b = flags_update s.total_ticks s.next_baro_us x.sim_time_us (first_baro s d) in
      let mag = leb s.next_mag_us x.sim_time_us in
      let baro = leb s.next_baro_us x.sim_time_us in
      let next =
        sample_and_send_sensors-Messages (ticked (sample_and_send_sensors A I M B G s x).state) xs
          (inl (omega arith)) in
      rw (m, b) (Honest-reading mag s.last_mag x.mag, Honest-reading baro s.last_baro x.baro, next)
