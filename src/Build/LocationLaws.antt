-- ===== src/Build/LocationLaws.antt =====
-- The location that is flown from, and the one origin that everything reads.
use hitl_daemon.Base.{
  Bool, true, false, not, ◌≡◌, refl, sym, subst, if◌then◌else◌, Option, none, some, Result, ok, err,
}
use hitl_daemon.Terrain.Geo.{Real}
use hitl_daemon.Terrain.Cache.{TerrainCache, set_origin}
use hitl_daemon.Build.Location.{
  BadLocation, lat_not_finite, lon_not_finite, lat_out_of_range, lon_out_of_range, FlightLocation,
  OriginValues, set, default, within, validate, if_valid, resolve_flight_location, Anchor,
  anchor_cache, anchor_at, anchor_origin,
}

module _ (r : Real) (is_finite : r.F → Bool) (neg : r.F → r.F) where
  -- A point on Earth.
  abbrev OnEarth : FlightLocation r.F → Type 0
  OnEarth location =
      (is_finite location.lat ≡ true)
      × (is_finite location.lon ≡ true)
      × (within r is_finite neg 90 location.lat ≡ true)
      × (within r is_finite neg 180 location.lon ≡ true)

  -- The answer to a request's location, by the location it carries.
  abbrev Resolved : Option (FlightLocation r.F) → Result BadLocation (FlightLocation r.F) → Type 0
  Resolved none o = o ≡ ok (default r is_finite neg)
  Resolved (some location) (ok x) = (x ≡ location) × OnEarth location
  Resolved (some location) (err lat_not_finite) = is_finite location.lat ≡ false
  Resolved (some location) (err lon_not_finite) = is_finite location.lon ≡ false
  Resolved (some location) (err lat_out_of_range) = within r is_finite neg 90 location.lat ≡ false
  Resolved (some location) (err lon_out_of_range) = within r is_finite neg 180 location.lon ≡ false

  Resolved-tests :
      (location : FlightLocation r.F) (a b c d : Bool)
      → is_finite location.lat ≡ a
      → is_finite location.lon ≡ b
      → within r is_finite neg 90 location.lat ≡ c
      → within r is_finite neg 180 location.lon ≡ d
      → Resolved (some location) (
          if_valid r is_finite neg location (
            if not a
            then err lat_not_finite
            else if not b
            then err lon_not_finite
            else if not c
            then err lat_out_of_range
            else if not d
            then err lon_out_of_range
            else ok tt))
  Resolved-tests location false b c d x y z t = x
  Resolved-tests location true false c d x y z t = y
  Resolved-tests location true true false d x y z t = z
  Resolved-tests location true true true false x y z t = t
  Resolved-tests location true true true true x y z t = (refl, (x, y, z, t))

  resolve_flight_location-Resolved :
      (o : Option (FlightLocation r.F)) → Resolved o (resolve_flight_location r is_finite neg o)
  unfolding resolve_flight_location validate
  resolve_flight_location-Resolved none = refl
  resolve_flight_location-Resolved (some location) =
      Resolved-tests location _ _ _ _ refl refl refl refl

module _ (r : Real) where
  -- The cache stands on the origin that the sensors read.
  abbrev pub Agree : Option (OriginValues r.F) → Option (TerrainCache r.F) → Type 0
  Agree none cache = Unit {0}
  Agree (some origin) none = Unit {0}
  Agree (some origin) (some cache) =
      (cache.inner.has_origin ≡ true)
      × (cache.inner.origin_lat ≡ origin.lat)
      × (cache.inner.origin_lon ≡ origin.lon)
      × (cache.inner.origin_elevation ≡ some origin.alt_datum)

  -- The datum is the elevation, or the configured altitude where there is none.
  abbrev Datum : Option r.F → r.F → OriginValues r.F → Type 0
  Datum none fallback origin = (origin.alt_datum ≡ fallback) × (origin.from_terrain ≡ false)
  Datum (some elevation) fallback origin =
      (origin.alt_datum ≡ elevation) × (origin.from_terrain ≡ true)

  -- Where the origin stands after it was moved.
  abbrev pub At : r.F → r.F → Option r.F → r.F → Option (OriginValues r.F) → Type 0
  At lat lon elevation fallback none = Unit {0}
  At lat lon elevation fallback (some origin) =
      (origin.lat ≡ lat) × (origin.lon ≡ lon) × Datum elevation fallback origin

  Agree-cache :
      (origin : OriginValues r.F) (cache : Option (TerrainCache r.F))
      → Agree (some origin) (anchor_cache r cache origin)
  unfolding set_origin
  Agree-cache origin none = tt
  Agree-cache origin (some cache) = (refl, refl, refl, refl)

  At-set :
      (lat lon : r.F) (elevation : Option r.F) (fallback : r.F)
      → At lat lon elevation fallback (some (set lat lon elevation fallback))
  unfolding set
  At-set lat lon none fallback = (refl, refl, (refl, refl))
  At-set lat lon (some elevation) fallback = (refl, refl, (refl, refl))

  anchor_at-Agree :
      (lat lon : r.F) (elevation : Option r.F) (a : Anchor r.F) (o : Option (OriginValues r.F))
      → a.flight_origin ≡ o
      → let b = anchor_at r o lat lon elevation a in
        Agree b.flight_origin b.terrain_cache × At lat lon elevation a.fallback_alt b.flight_origin
  anchor_at-Agree lat lon elevation a none q =
      subst (λ o. Agree o a.terrain_cache × At lat lon elevation a.fallback_alt o) (sym q) (tt, tt)
  anchor_at-Agree lat lon elevation a (some origin) q = (
    Agree-cache (set lat lon elevation a.fallback_alt) a.terrain_cache,
    At-set lat lon elevation a.fallback_alt,
  )

  pub anchor_origin-Agree :
      (lat lon : r.F) (elevation : Option r.F) (a : Anchor r.F)
      → let b = anchor_origin r lat lon elevation a in
        Agree b.flight_origin b.terrain_cache × At lat lon elevation a.fallback_alt b.flight_origin
  unfolding anchor_origin
  anchor_origin-Agree lat lon elevation a = anchor_at-Agree lat lon elevation a a.flight_origin refl
