-- ===== src/Terrain/Tests.antt =====
-- A cache over a plain arithmetic, and the theorems at it.
use hitl_daemon.Base.{
  ℕ, true, false, ◌+◌, ◌-◌, ◌*◌, ◌/◌, ◌||◌, ◌≤◌, ◌≡◌, refl, ltb, leb, none, some, [], ◌∷◌, arith,
}
use hitl_daemon.Terrain.Keyed.{contains_key, remove, Distinct}
use hitl_daemon.Terrain.Ranked.{sort_furthest_first, insert_ranked}
use hitl_daemon.Terrain.Geo.{Real, TileCoord, same_coord, from_lon_lat, ned_to_lat_lon}
use hitl_daemon.Terrain.Cache.{
  TileEntry, TerrainCacheInner, TerrainCache, distance, by_distance, remove_all, with_capacity,
  centre_of, evict_around, evict_to_bound,
}
use hitl_daemon.Terrain.Evict.{squares_from, evict_to_bound-nearest}
use hitl_daemon.Terrain.Invariant.{
  WellFormed, anchor, move, ingest, ingest_late, run, run-WellFormed,
}
use hitl_daemon.Terrain.Reads.{neighbour, missing_around_vehicle}
use hitl_daemon.Terrain.Missing.{asks, missing_around_vehicle-covers}

-- Natural numbers in place of the host's floats.
abbrev pub plain : Real
plain = record {
  F = ℕ;
  of_nat = λ n. n;
  decimal = λ m e. m;
  pi = 3;
  add = λ a b. a + b;
  sub = λ a b. a - b;
  mul = λ a b. a * b;
  div = λ a b. a / b;
  cos = λ a. 1;
  tan = λ a. a;
  sinh = λ a. a;
  atan = λ a. a;
  ln = λ a. a;
  sqrt = λ a. a;
  abs = λ a. a;
  to_radians = λ a. a;
  to_degrees = λ a. a;
  floor_u32 = λ a. a;
  gt = λ a b. ltb b a;
  le = λ a b. leb a b;
  f32_is_finite = λ n. true;
  f32_lt = λ a b. false;
}

abbrev at : ℕ → TileCoord
at x = record { x = x; y = 0; z = 4 }

abbrev flat : TileEntry
flat = record { heights = []; approximate = false }

run-WellFormed_example : WellFormed (
    run plain
      (anchor 0 0 (some 5)
        ∷ ingest 256 ((at 1, flat) ∷ [])
        ∷ anchor 1 1 none
        ∷ ingest_late 0 0 256 ((at 1, flat) ∷ [])
        ∷ move 3 4
        ∷ [])
      (with_capacity plain 2))
run-WellFormed_example = run-WellFormed plain 2 (
    anchor 0 0 (some 5)
    ∷ ingest 256 ((at 1, flat) ∷ [])
    ∷ anchor 1 1 none
    ∷ ingest_late 0 0 256 ((at 1, flat) ∷ [])
    ∷ move 3 4
    ∷ [])

abbrev resident : TerrainCacheInner ℕ
resident = record {
  zoom = some 4;
  tiles = (at 9, flat) ∷ (at 1, flat) ∷ [];
  origin_lat = 0;
  origin_lon = 0;
  origin_elevation = some 0;
  has_origin = true;
}

evict_to_bound-nearest_example :
    squares_from (centre_of plain resident 0 0 4) (at 1)
    ≤ squares_from (centre_of plain resident 0 0 4) (at 9)
unfolding evict_to_bound evict_around contains_key same_coord Distinct centre_of from_lon_lat
    ned_to_lat_lon distance by_distance sort_furthest_first insert_ranked remove_all remove
evict_to_bound-nearest_example =
    evict_to_bound-nearest plain resident (refl, (refl, tt)) 1 0 0 4 (at 1) (at 9) refl
      (omega arith, omega arith) (omega arith, omega arith) (omega arith, omega arith) refl refl
      refl

abbrev cache : TerrainCache ℕ
cache = record { inner = resident; max_resident = 2; vehicle_north = 0; vehicle_east = 0 }

missing_around_vehicle-covers_example :
    let k = neighbour (centre_of plain resident 0 0 4) 1 2 0 in
    (contains_key same_coord k resident.tiles || asks k (missing_around_vehicle plain cache 1))
    ≡ true
missing_around_vehicle-covers_example =
    missing_around_vehicle-covers plain cache 1 2 0 (omega arith) (omega arith) 4 refl refl
