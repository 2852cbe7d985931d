-- ===== src/Build/Location.antt =====
-- Where a build flies: crates/websocket/src/protocol.rs (the location of a request),
-- crates/simulation/src/origin.rs and `anchor_origin` of crates/websocket/src/build_config.rs.
use hitl_daemon.Base.{
  ℕ, Bool, true, false, not, ◌&&◌, if◌then◌else◌, Option, none, some, Result, ok, err,
}
use hitl_daemon.Terrain.Geo.{Real}
use hitl_daemon.Terrain.Cache.{TerrainCache, set_origin}

-- Which test a location fails.
pub data BadLocation : Type 0 where
  lat_not_finite lon_not_finite lat_out_of_range lon_out_of_range : BadLocation

pub record FlightLocation (F : Type 0) : Type 0 where
  pub lat : F
  pub lon : F

pub record OriginValues (F : Type 0) : Type 0 where
  pub lat : F
  pub lon : F
  pub alt_datum : F
  pub from_terrain : Bool

-- `SharedOrigin::set`.
unfoldable pub set : {F : Type 0} → F → F → Option F → F → OriginValues F
set lat lon none fallback_alt = record {
  lat = lat;
  lon = lon;
  alt_datum = fallback_alt;
  from_terrain = false;
}
set lat lon (some elevation) fallback_alt = record {
  lat = lat;
  lon = lon;
  alt_datum = elevation;
  from_terrain = true;
}

-- `is_finite` and the sign of f64 are given.
module _ (r : Real) (is_finite : r.F → Bool) (neg : r.F → r.F) where
  open r use {F, of_nat, decimal, le}

  abbrev pub default : FlightLocation F
  default = record { lat = decimal 40015 3; lon = neg (decimal 1052705 4) }

  abbrev pub within : ℕ → F → Bool
  within bound x = le (neg (of_nat bound)) x && le x (of_nat bound)

  unfoldable pub validate : FlightLocation F → Result BadLocation (Unit {0})
  validate location =
      if not (is_finite location.lat)
      then err lat_not_finite
      else if not (is_finite location.lon)
      then err lon_not_finite
      else if not (within 90 location.lat)
      then err lat_out_of_range
      else if not (within 180 location.lon)
      then err lon_out_of_range
      else ok tt

  abbrev pub if_valid :
      FlightLocation F → Result BadLocation (Unit {0}) → Result BadLocation (FlightLocation F)
  if_valid location (ok u) = ok location
  if_valid location (err why) = err why

  unfoldable pub resolve_flight_location :
      Option (FlightLocation F) → Result BadLocation (FlightLocation F)
  resolve_flight_location none = ok default
  resolve_flight_location (some location) = if_valid location (validate location)

-- The holders that `anchor_origin` writes; each may be absent.
pub record Anchor (F : Type 0) : Type 0 where
  pub flight_origin : Option (OriginValues F)
  pub terrain_cache : Option (TerrainCache F)
  pub fallback_alt : F

module _ (r : Real) where
  open r use {F}

  abbrev pub anchor_cache : Option (TerrainCache F) → OriginValues F → Option (TerrainCache F)
  anchor_cache none resolved = none
  anchor_cache (some cache) resolved =
      some (set_origin r cache resolved.lat resolved.lon (some resolved.alt_datum))

  abbrev pub anchor_at : Option (OriginValues F) → F → F → Option F → Anchor F → Anchor F
  anchor_at none lat lon elevation_msl a = a
  anchor_at (some origin) lat lon elevation_msl a =
      let resolved = set lat lon elevation_msl a.fallback_alt in
      record a {
        flight_origin = some resolved;
        terrain_cache = anchor_cache a.terrain_cache resolved;
      }

  unfoldable pub anchor_origin : F → F → Option F → Anchor F → Anchor F
  anchor_origin lat lon elevation_msl a = anchor_at a.flight_origin lat lon elevation_msl a
