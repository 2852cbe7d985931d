-- ===== src/Build/Catalogue.antt =====
-- crates/websocket/src/build_config.rs: what a build takes from the component catalogue, and what it has
-- to estimate. `specs` is a parsed JSON object, of which only `get` and `as_f64` are used.
use Prim.Native.String.{String}
use hitl_daemon.Base.{
  ℕ, Bool, true, false, not, ◌||◌, ltb, if◌then◌else◌, Option, none, some, List, [], ◌∷◌, ◌++◌,
}
use hitl_daemon.Terrain.Geo.{Real}

-- The masses and the limits that are named as estimates.
pub data EstimatedMass : Type 0 where
  propeller battery battery_extrapolated : EstimatedMass

pub data EstimatedLimit : Type 0 where
  battery_c_rating battery_max_current_a esc_continuous_current_a esc_burst_current_a :
      EstimatedLimit
  max_current_per_motor_a : EstimatedLimit

pub record LimitProvenance : Type 0 where
  pub c_rating_from_spec : Bool
  pub esc_continuous_from_spec : Bool
  pub esc_burst_from_spec : Bool

abbrev pub unknown : LimitProvenance
unknown = record {
  c_rating_from_spec = false;
  esc_continuous_from_spec = false;
  esc_burst_from_spec = false;
}

-- The limits that are estimates, in the order of the code.
unfoldable pub estimated_limits : LimitProvenance → List EstimatedLimit
estimated_limits prov =
    (if not prov.c_rating_from_spec then battery_c_rating ∷ battery_max_current_a ∷ [] else [])
    ++ (if not prov.esc_continuous_from_spec then esc_continuous_current_a ∷ [] else [])
    ++ (if not prov.esc_burst_from_spec then esc_burst_current_a ∷ [] else [])
    ++ (if not prov.c_rating_from_spec || not prov.esc_burst_from_spec
        then max_current_per_motor_a ∷ []
        else [])

module _ (r : Real) (Json : Type 0) (get_f64 : Json → String → Option r.F) where
  open r use {F, of_nat, decimal, mul, gt}

  -- The figures of a `BuildSpec` that come from the propeller, the ESC or the battery.
  pub record Figures : Type 0 where
    pub propeller_weight_g : Option F
    pub battery_weight_g : F
    pub c_rating : F
    pub continuous_amps : F
    pub burst_amps : Option F
    pub esc_weight_g : Option F

  abbrev pub positive : Option F → Option F
  positive none = none
  positive (some c) = if gt c (of_nat 0) then some c else none

  abbrev pub or_kept : Option F → F → F
  or_kept none kept = kept
  or_kept (some x) kept = x

  abbrev pub or_also : Option F → Option F → Option F
  or_also none kept = kept
  or_also (some x) kept = some x

  abbrev pub is_some : Option F → Bool
  is_some none = false
  is_some (some x) = true

  unfoldable pub apply_esc_catalogue : Json → Figures × LimitProvenance → Figures × LimitProvenance
  apply_esc_catalogue specs (figures, prov) =
      let continuous = get_f64 specs "continuousCurrentA" in
      let burst = get_f64 specs "burstCurrentA" in
      (
        record figures {
          continuous_amps = or_kept continuous figures.continuous_amps;
          burst_amps = or_also burst figures.burst_amps;
          esc_weight_g = or_also (get_f64 specs "weightG") figures.esc_weight_g;
        },
        record prov {
          esc_continuous_from_spec = is_some continuous || prov.esc_continuous_from_spec;
          esc_burst_from_spec = is_some burst || prov.esc_burst_from_spec;
        },
      )

  unfoldable pub apply_battery_c_rating :
      Json → Figures × LimitProvenance → Figures × LimitProvenance
  apply_battery_c_rating specs (figures, prov) =
      let c = positive (get_f64 specs "dischargeRateC") in
      (
        record figures { c_rating = or_kept c figures.c_rating },
        record prov { c_rating_from_spec = is_some c || prov.c_rating_from_spec },
      )

  abbrev with_esc : Option Json → Figures × LimitProvenance → Figures × LimitProvenance
  with_esc none f = f
  with_esc (some specs) f = apply_esc_catalogue specs f

  -- The pack's weight, whether it was measured, and its rating.
  abbrev with_battery : Option Json → Figures × LimitProvenance → Figures × LimitProvenance
  with_battery none f = f
  with_battery (some specs) (figures, prov) = apply_battery_c_rating specs (
    record figures {
      battery_weight_g = or_kept (get_f64 specs "weightG") figures.battery_weight_g;
    },
    prov,
  )

  abbrev weight_of : Option Json → Option F
  weight_of none = none
  weight_of (some specs) = get_f64 specs "weightG"

  -- What the request says of the pack, and how many ESCs it has.
  pub record Pack : Type 0 where
    pub battery_capacity_mah : F
    pub battery_cell_count : ℕ
    pub esc_count : ℕ

  abbrev pub estimated_pack : Pack → F
  estimated_pack pack =
      mul (mul pack.battery_capacity_mah (of_nat pack.battery_cell_count)) (decimal 35 3)

  -- BATTERY_FIT_MIN_MAH and BATTERY_FIT_MAX_MAH.
  abbrev is_extrapolated : Pack → Bool
  is_extrapolated pack =
      gt (of_nat 1100) pack.battery_capacity_mah || gt pack.battery_capacity_mah (of_nat 4500)

  unfoldable pub estimated_masses : Pack → Option F → Option F → List EstimatedMass
  estimated_masses pack propeller_weight battery_weight =
      (if is_some propeller_weight then [] else propeller ∷ [])
      ++ (if is_some battery_weight
          then []
          else battery ∷ (if is_extrapolated pack then battery_extrapolated ∷ [] else []))

  -- One 4-in-1 ESC weighs once, single ones each.
  unfoldable pub weigh_escs : ℕ → Option F → Option F
  weigh_escs count none = none
  weigh_escs count (some per_unit) =
      if ltb 1 count then some (mul per_unit (of_nat count)) else some per_unit

  -- What a build is made of and what it discloses; `figures` are the defaults of a `BuildSpec`. Specs
  -- that were not asked for or not fetched are none.
  pub record Built : Type 0 where
    pub figures : Figures
    pub limits : List EstimatedLimit
    pub masses : List EstimatedMass

  unfoldable pub assemble : Figures → Pack → Option Json → Option Json → Option Json → Built
  assemble defaults pack propeller_specs esc_specs battery_specs =
      let start = record defaults {
        propeller_weight_g = or_also (weight_of propeller_specs) defaults.propeller_weight_g;
        battery_weight_g = estimated_pack pack;
      } in
      let f = with_battery battery_specs (with_esc esc_specs (start, unknown)) in
      record {
        figures = record f.0 { esc_weight_g = weigh_escs pack.esc_count f.0.esc_weight_g };
        limits = estimated_limits f.1;
        masses = estimated_masses pack (weight_of propeller_specs) (weight_of battery_specs);
      }
