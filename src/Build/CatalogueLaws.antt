-- ===== src/Build/CatalogueLaws.antt =====
-- What is not named as an estimate is a figure of the catalogue.
use Prim.Native.String.{String}
use hitl_daemon.Base.{
  Bool, true, false, ◌||◌, ◌≡◌, ◌⊎◌, inl, inr, refl, sym, subst, Option, none, some, List, [], ◌∷◌,
  Bool-cases,
}
use hitl_daemon.Terrain.Geo.{Real}
use hitl_daemon.Build.Catalogue.{
  propeller, battery, EstimatedLimit, battery_c_rating, battery_max_current_a,
  esc_continuous_current_a, esc_burst_current_a, max_current_per_motor_a, estimated_limits, Figures,
  positive, apply_esc_catalogue, apply_battery_c_rating, Pack, estimated_pack, estimated_masses,
  Built, assemble, weigh_escs, or_also, or_kept, is_some,
}

-- Membership in what a build discloses.
abbrev pub Named : {A : Type 0} → A → List A → Type 0
Named a [] = ⊥
Named a (b ∷ bs) = (a ≡ b) ⊎ Named a bs

abbrev limits_of : Bool → Bool → Bool → List EstimatedLimit
limits_of c continuous burst = estimated_limits (record {
  c_rating_from_spec = c;
  esc_continuous_from_spec = continuous;
  esc_burst_from_spec = burst;
})

c_rating-Named :
    (v w : Bool)
    → Named battery_c_rating (limits_of false v w)
      × (Named battery_max_current_a (limits_of false v w)
          × Named max_current_per_motor_a (limits_of false v w))
unfolding estimated_limits
c_rating-Named true true = (inl refl, (inr (inl refl), inr (inr (inl refl))))
c_rating-Named true false = (inl refl, (inr (inl refl), inr (inr (inr (inl refl)))))
c_rating-Named false true = (inl refl, (inr (inl refl), inr (inr (inr (inl refl)))))
c_rating-Named false false = (inl refl, (inr (inl refl), inr (inr (inr (inr (inl refl))))))

continuous-Named : (u w : Bool) → Named esc_continuous_current_a (limits_of u false w)
unfolding estimated_limits
continuous-Named true w = inl refl
continuous-Named false w = inr (inr (inl refl))

burst-Named :
    (u v : Bool)
    → Named esc_burst_current_a (limits_of u v false)
      × Named max_current_per_motor_a (limits_of u v false)
unfolding estimated_limits
burst-Named true true = (inl refl, inr (inl refl))
burst-Named true false = (inr (inl refl), inr (inr (inl refl)))
burst-Named false true = (inr (inr (inl refl)), inr (inr (inr (inl refl))))
burst-Named false false = (inr (inr (inr (inl refl))), inr (inr (inr (inr (inl refl)))))

module _ (r : Real) (Json : Type 0) (get_f64 : Json → String → Option r.F) where
  abbrev pub figure : Option Json → String → Option r.F
  figure none name = none
  figure (some specs) name = get_f64 specs name

  -- A figure is the catalogue's, or it is named with what rests on it.
  abbrev pub Disclosed :
      Figures r Json get_f64
      → Pack r Json get_f64
      → Option Json
      → Option Json
      → Option Json
      → Built r Json get_f64
      → Type 0
  Disclosed defaults pack propeller_specs esc_specs battery_specs x =
      ((figure propeller_specs "weightG" ≡ x.figures.propeller_weight_g) ⊎ Named propeller x.masses)
      × ((figure battery_specs "weightG" ≡ some x.figures.battery_weight_g)
          ⊎ (Named battery x.masses
              × (x.figures.battery_weight_g ≡ estimated_pack r Json get_f64 pack)))
      × ((figure battery_specs "dischargeRateC" ≡ some x.figures.c_rating)
          ⊎ (Named battery_c_rating x.limits
              × (Named battery_max_current_a x.limits × Named max_current_per_motor_a x.limits)))
      × ((figure esc_specs "continuousCurrentA" ≡ some x.figures.continuous_amps)
          ⊎ Named esc_continuous_current_a x.limits)
      × ((figure esc_specs "burstCurrentA" ≡ x.figures.burst_amps)
          ⊎ (Named esc_burst_current_a x.limits × Named max_current_per_motor_a x.limits))

  propeller-Named :
      (pack : Pack r Json get_f64) (o battery_weight kept : Option r.F)
      → (o ≡ or_also r Json get_f64 o kept)
        ⊎ Named propeller (estimated_masses r Json get_f64 pack o battery_weight)
  unfolding estimated_masses
  propeller-Named pack none battery_weight kept = inr (inl refl)
  propeller-Named pack (some x) battery_weight kept = inl refl

  battery-Named :
      (pack : Pack r Json get_f64) (propeller_weight o : Option r.F)
      → (o ≡ some (or_kept r Json get_f64 o (estimated_pack r Json get_f64 pack)))
        ⊎ (Named battery (estimated_masses r Json get_f64 pack propeller_weight o)
            × (or_kept r Json get_f64 o (estimated_pack r Json get_f64 pack)
                ≡ estimated_pack r Json get_f64 pack))
  unfolding estimated_masses
  battery-Named pack none none = inr (inr (inl refl), refl)
  battery-Named pack (some w) none = inr (inl refl, refl)
  battery-Named pack w (some x) = inl refl

  rating-Named :
      (o : Option r.F) (kept : r.F) (v w : Bool)
      → (o ≡ some (or_kept r Json get_f64 (positive r Json get_f64 o) kept))
        ⊎ (Named battery_c_rating
              (limits_of (is_some r Json get_f64 (positive r Json get_f64 o) || false) v w)
            × (Named battery_max_current_a
                  (limits_of (is_some r Json get_f64 (positive r Json get_f64 o) || false) v w)
                × Named max_current_per_motor_a
                    (limits_of (is_some r Json get_f64 (positive r Json get_f64 o) || false) v w)))
  rating-Named none kept v w = inr (c_rating-Named v w)
  rating-Named (some c) kept v w = elim (Bool-cases (r.gt c (r.of_nat 0))) [
    | inl p ↦ inl (rw p refl)
    | inr p ↦ inr (rw p (c_rating-Named v w))
  ]

  amps-Named :
      (o : Option r.F) (kept : r.F) (u w : Bool)
      → (o ≡ some (or_kept r Json get_f64 o kept))
        ⊎ Named esc_continuous_current_a (limits_of u (is_some r Json get_f64 o || false) w)
  amps-Named none kept u w = inr (continuous-Named u w)
  amps-Named (some x) kept u w = inl refl

  peak-Named :
      (o kept : Option r.F) (u v : Bool)
      → (o ≡ or_also r Json get_f64 o kept)
        ⊎ (Named esc_burst_current_a (limits_of u v (is_some r Json get_f64 o || false))
            × Named max_current_per_motor_a (limits_of u v (is_some r Json get_f64 o || false)))
  peak-Named none kept u v = inr (burst-Named u v)
  peak-Named (some x) kept u v = inl refl

  -- A build over the figures of its three catalogue entries.
  abbrev made_of :
      Figures r Json get_f64
      → Pack r Json get_f64
      → Option r.F
      → Option r.F
      → Option r.F
      → Option r.F
      → Option r.F
      → Option r.F
      → Built r Json get_f64
  made_of defaults pack propeller_weight battery_weight rating continuous burst esc_weight =
      record {
        figures = record {
          propeller_weight_g = or_also r Json get_f64 propeller_weight defaults.propeller_weight_g;
          battery_weight_g =
              or_kept r Json get_f64 battery_weight (estimated_pack r Json get_f64 pack);
          c_rating = or_kept r Json get_f64 (positive r Json get_f64 rating) defaults.c_rating;
          continuous_amps = or_kept r Json get_f64 continuous defaults.continuous_amps;
          burst_amps = or_also r Json get_f64 burst defaults.burst_amps;
          esc_weight_g =
              weigh_escs r Json get_f64 pack.esc_count
                (or_also r Json get_f64 esc_weight defaults.esc_weight_g);
        };
        limits =
            limits_of (is_some r Json get_f64 (positive r Json get_f64 rating) || false)
              (is_some r Json get_f64 continuous || false) (is_some r Json get_f64 burst || false);
        masses = estimated_masses r Json get_f64 pack propeller_weight battery_weight;
      }

  assemble_lem :
      (defaults : Figures r Json get_f64) (pack : Pack r Json get_f64) (a b c : Option Json)
      → assemble r Json get_f64 defaults pack a b c
        ≡ made_of defaults pack
            (figure a "weightG")
            (figure c "weightG")
            (figure c "dischargeRateC")
            (figure b "continuousCurrentA")
            (figure b "burstCurrentA")
            (figure b "weightG")
  unfolding assemble apply_esc_catalogue apply_battery_c_rating
  assemble_lem defaults pack none none none = refl
  assemble_lem defaults pack none none (some c) = refl
  assemble_lem defaults pack none (some b) none = refl
  assemble_lem defaults pack none (some b) (some c) = refl
  assemble_lem defaults pack (some a) none none = refl
  assemble_lem defaults pack (some a) none (some c) = refl
  assemble_lem defaults pack (some a) (some b) none = refl
  assemble_lem defaults pack (some a) (some b) (some c) = refl

  -- Whatever the catalogue has on the propeller, the ESC and the battery of a build, each of the
  -- propeller's and the battery's mass, the battery's rating and the ESC's two ratings is the
  -- catalogue's figure, or it is named as an estimate, with the limits that rest on it; an
  -- estimated battery has the estimate's mass.
  pub assemble-Disclosed :
      (defaults : Figures r Json get_f64) (pack : Pack r Json get_f64) (a b c : Option Json)
      → Disclosed defaults pack a b c (assemble r Json get_f64 defaults pack a b c)
  assemble-Disclosed defaults pack a b c =
      let c_known =
        is_some r Json get_f64 (positive r Json get_f64 (figure c "dischargeRateC")) || false in
      let continuous_known = is_some r Json get_f64 (figure b "continuousCurrentA") || false in
      let burst_known = is_some r Json get_f64 (figure b "burstCurrentA") || false in
      subst (Disclosed defaults pack a b c) (sym (assemble_lem defaults pack a b c)) (
        propeller-Named pack (figure a "weightG") (figure c "weightG") defaults.propeller_weight_g,
        battery-Named pack (figure a "weightG") (figure c "weightG"),
        rating-Named (figure c "dischargeRateC") defaults.c_rating continuous_known burst_known,
        amps-Named (figure b "continuousCurrentA") defaults.continuous_amps c_known burst_known,
        peak-Named (figure b "burstCurrentA") defaults.burst_amps c_known continuous_known,
      )
