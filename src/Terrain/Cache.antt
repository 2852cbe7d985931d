-- ===== src/Terrain/Cache.antt =====
-- `TerrainCache` of crates/terrain/src/lib.rs: the tiles that are resident and the operations on
-- them. An operation is a function of the state. `insert_tiles` takes the lock twice, to read the
-- origin and to insert: `insert_seen` is what it does with the origin that it read, at a cache that
-- may have changed since.
use hitl_daemon.Base.{
  ℕ, Bool, true, false, not, ◌&&◌, ◌||◌, ◌+◌, ◌*◌, ◌-◌, ◌%◌, ◌^◌, max, ltb, leb, ◌==◌,
  if◌then◌else◌, Option, none, some, List, [], ◌∷◌, length, take, Result, ok, err,
}
use hitl_daemon.Terrain.Keyed.{insert, remove}
use hitl_daemon.Terrain.Ranked.{sort_furthest_first}
use hitl_daemon.Terrain.Geo.{
  Real, TileCoord, same_coord, tile_size, min_elevation_m, max_elevation_m, max_zoom,
  max_origin_distance_m, same_origin_meters, from_lon_lat, tile_to_lon_lat, distance_m,
  ned_to_lat_lon,
}

pub record TileEntry : Type 0 where
  pub heights : List ℕ
  pub approximate : Bool

abbrev pub Tiles : Type 0
Tiles = List (TileCoord × TileEntry)

pub data TileRejection (F : Type 0) : Type 0 where
  unsupported_tile_size : (declared supported : ℕ) → TileRejection F
  wrong_sample_count : (got expected : ℕ) → TileRejection F
  coord_out_of_range : TileCoord → TileRejection F
  too_far_from_origin : (metres limit : F) → TileRejection F
  implausible_elevation : (index value : ℕ) → TileRejection F
  no_origin : TileRejection F

pub record TerrainCacheInner (F : Type 0) : Type 0 where
  pub zoom : Option ℕ
  pub tiles : Tiles
  pub origin_lat : F
  pub origin_lon : F
  pub origin_elevation : Option F
  pub has_origin : Bool

pub record TerrainCache (F : Type 0) : Type 0 where
  pub inner : TerrainCacheInner F
  pub max_resident : ℕ
  pub vehicle_north : F
  pub vehicle_east : F

pub record InsertReport (F : Type 0) : Type 0 where
  pub accepted : ℕ
  pub rejected : List (TileCoord × TileRejection F)
  pub evicted : ℕ

-- A tile as it is submitted.
abbrev pub Submitted : Type 0
Submitted = TileCoord × TileEntry

abbrev pub zoom_is : Option ℕ → ℕ → Bool
zoom_is none z = false
zoom_is (some y) z = y == z

-- The square of the difference of two coordinates.
abbrev pub square_of_difference : ℕ → ℕ → ℕ
square_of_difference a b = (a - b + (b - a)) * (a - b + (b - a))

-- 2 ^ 63 and 2 ^ 64.
abbrev pub i64_half : ℕ
i64_half = 9223372036854775808

abbrev pub i64_count : ℕ
i64_count = 18446744073709551616

-- The sum of the squares as an `i64`, which wraps around; it stands by how far it is above the
-- least `i64`, so that `≤` is the order of `i64`.
unfoldable pub distance : TileCoord → TileCoord → ℕ
distance centre c =
    (square_of_difference c.x centre.x + square_of_difference c.y centre.y + i64_half) % i64_count

unfoldable pub by_distance : TileCoord → Tiles → List (ℕ × TileCoord)
by_distance centre [] = []
by_distance centre ((c, v) ∷ tiles) = (distance centre c, c) ∷ by_distance centre tiles

unfoldable pub remove_all : List (ℕ × TileCoord) → Tiles → Tiles
remove_all [] tiles = tiles
remove_all (p ∷ l) tiles = remove_all l (remove same_coord p.1 tiles)

unfoldable pub first_implausible :
    {F : Type 0} → (ℕ → Bool) → ℕ → List ℕ → Result (TileRejection F) (Unit {0})
first_implausible bad index [] = ok tt
first_implausible bad index (value ∷ heights) =
    let rest = first_implausible bad (index + 1) heights in
    if bad value then err (implausible_elevation index value) else rest

module _ (r : Real) where
  open r use {F, of_nat, gt, le, f32_is_finite, f32_lt}

  unfoldable pub with_capacity : ℕ → TerrainCache F
  with_capacity max_resident = record {
    inner = record {
      zoom = none;
      tiles = [];
      origin_lat = of_nat 0;
      origin_lon = of_nat 0;
      origin_elevation = none;
      has_origin = false;
    };
    max_resident = max max_resident 1;
    vehicle_north = of_nat 0;
    vehicle_east = of_nat 0;
  }

  unfoldable pub set_origin : TerrainCache F → F → F → Option F → TerrainCache F
  set_origin c lat lon elevation_msl =
      let moved =
        c.inner.has_origin
        && gt (distance_m r c.inner.origin_lat c.inner.origin_lon lat lon) (same_origin_meters r) in
      record c {
        inner = record {
          zoom = if moved then none else c.inner.zoom;
          tiles = if moved then [] else c.inner.tiles;
          origin_lat = lat;
          origin_lon = lon;
          origin_elevation = elevation_msl;
          has_origin = true;
        };
        vehicle_north = of_nat 0;
        vehicle_east = of_nat 0;
      }

  unfoldable pub is_anchored_to : TerrainCache F → F → F → Bool
  is_anchored_to c lat lon =
      c.inner.has_origin
      && le (distance_m r c.inner.origin_lat c.inner.origin_lon lat lon) (same_origin_meters r)

  unfoldable pub set_vehicle_ned : TerrainCache F → F → F → TerrainCache F
  set_vehicle_ned c north east = record c { vehicle_north = north; vehicle_east = east }

  unfoldable pub implausible : ℕ → Bool
  implausible value =
      not (f32_is_finite value) || (f32_lt value min_elevation_m || f32_lt max_elevation_m value)

  unfoldable pub validate_tile : TileCoord → List ℕ → F → F → Result (TileRejection F) (Unit {0})
  validate_tile coord heights origin_lat origin_lon =
      if not (length heights == tile_size * tile_size)
      then err (wrong_sample_count (length heights) (tile_size * tile_size))
      else if ltb max_zoom coord.z
      then err (coord_out_of_range coord)
      else if leb (2 ^ coord.z) coord.x || leb (2 ^ coord.z) coord.y
      then err (coord_out_of_range coord)
      else let nw = tile_to_lon_lat r coord.x coord.y coord.z in
        let metres = distance_m r origin_lat origin_lon nw.1 nw.0 in
        if gt metres (max_origin_distance_m r)
        then err (too_far_from_origin metres (max_origin_distance_m r))
        else first_implausible implausible 0 heights

  abbrev pub Sorted : Type 0
  Sorted = List Submitted × List (TileCoord × TileRejection F)

  abbrev pub sort_out : Submitted → Result (TileRejection F) (Unit {0}) → Sorted → Sorted
  sort_out tile (ok u) (valid, rejected) = (tile ∷ valid, rejected)
  sort_out tile (err reason) (valid, rejected) = (valid, (tile.0, reason) ∷ rejected)

  -- The loop that validates the tiles of a batch, before the lock is taken.
  unfoldable pub validate_tiles : F → F → List Submitted → Sorted
  validate_tiles lat lon [] = ([], [])
  validate_tiles lat lon (tile ∷ tiles) =
      sort_out tile (validate_tile tile.0 tile.1.heights lat lon) (validate_tiles lat lon tiles)

  unfoldable pub insert_tile : TerrainCacheInner F → Submitted → TerrainCacheInner F
  insert_tile inner (coord, entry) =
      if zoom_is inner.zoom coord.z
      then record inner { tiles = insert same_coord coord entry inner.tiles }
      else record inner { zoom = some coord.z; tiles = insert same_coord coord entry [] }

  unfoldable pub insert_all : TerrainCacheInner F → List Submitted → TerrainCacheInner F
  insert_all inner [] = inner
  insert_all inner (tile ∷ tiles) = insert_all (insert_tile inner tile) tiles

  -- The tile under the vehicle.
  unfoldable pub centre_of : TerrainCacheInner F → F → F → ℕ → TileCoord
  centre_of inner north east z =
      let place = ned_to_lat_lon r north east inner.origin_lat inner.origin_lon in
      from_lon_lat r place.1 place.0 z

  unfoldable pub evict_around : TileCoord → ℕ → TerrainCacheInner F → TerrainCacheInner F × ℕ
  evict_around centre max_resident inner =
      let excess = length inner.tiles - max_resident in
      let furthest = take excess (sort_furthest_first (by_distance centre inner.tiles)) in
      (record inner { tiles = remove_all furthest inner.tiles }, excess)

  abbrev pub evict_at : Option ℕ → TerrainCacheInner F → ℕ → F → F → TerrainCacheInner F × ℕ
  evict_at none inner max_resident north east = (inner, 0)
  evict_at (some z) inner max_resident north east =
      evict_around (centre_of inner north east z) max_resident inner

  unfoldable pub evict_to_bound : TerrainCacheInner F → ℕ → F → F → TerrainCacheInner F × ℕ
  evict_to_bound inner max_resident north east =
      if leb (length inner.tiles) max_resident
      then (inner, 0)
      else evict_at inner.zoom inner max_resident north east

  abbrev pub reject_all : TileRejection F → List Submitted → List (TileCoord × TileRejection F)
  reject_all reason [] = []
  reject_all reason (tile ∷ tiles) = (tile.0, reason) ∷ reject_all reason tiles

  unfoldable pub insert_valid : TerrainCache F → Sorted → TerrainCache F × InsertReport F
  insert_valid c (valid, rejected) =
      let kept =
        evict_to_bound (insert_all c.inner valid) c.max_resident c.vehicle_north c.vehicle_east in
      (
        record c { inner = kept.0 },
        record { accepted = length valid; rejected = rejected; evicted = kept.1 },
      )

  abbrev pub insert_seen :
      Bool → F → F → TerrainCache F → ℕ → List Submitted → TerrainCache F × InsertReport F
  insert_seen has_origin origin_lat origin_lon c size tiles =
      if not (size == tile_size)
      then (
        c,
        record {
          accepted = 0;
          rejected = reject_all (unsupported_tile_size size tile_size) tiles;
          evicted = 0;
        },
      )
      else if not has_origin
      then (c, record { accepted = 0; rejected = reject_all no_origin tiles; evicted = 0 })
      else insert_valid c (validate_tiles origin_lat origin_lon tiles)

  unfoldable pub insert_tiles :
      TerrainCache F → ℕ → List Submitted → TerrainCache F × InsertReport F
  insert_tiles c size tiles =
      insert_seen c.inner.has_origin c.inner.origin_lat c.inner.origin_lon c size tiles
