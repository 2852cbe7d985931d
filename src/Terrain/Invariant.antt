-- ===== src/Terrain/Invariant.antt =====
-- What holds of the terrain cache after every operation, and what a batch of tiles does to it.
use hitl_daemon.Base.{
  ℕ, Bool, true, false, not, ◌&&◌, ◌*◌, ◌^◌, ◌≤◌, ◌<◌, ◌≡◌, refl, sym, subst, ◌∙◌, leb, ◌==◌,
  if◌then◌else◌, Option, none, some, List, [], ◌∷◌, length, arith, Bool-cases, eqb→eq, inl, inr,
  Result, ok, err,
}
use hitl_daemon.Terrain.Keyed.{insert, Distinct, Every, Distinct-insert, Every-insert}
use hitl_daemon.Terrain.Geo.{
  Real, TileCoord, same_coord, same_coord_sound, same_coord_refl, tile_size, max_zoom, distance_m,
  same_origin_meters,
}
use hitl_daemon.Terrain.Evict.{evict_to_bound-Evicted, evict_to_bound-Every}
use hitl_daemon.Terrain.Cache.{
  TileEntry, Tiles, TileRejection, TerrainCacheInner, TerrainCache, Submitted, zoom_is,
  with_capacity, set_origin, set_vehicle_ned, validate_tile, sort_out, Sorted, validate_tiles,
  insert_tile, insert_all, evict_around, evict_at, evict_to_bound, insert_valid, insert_seen,
  insert_tiles,
}

-- A tile of the zoom `z` that exists at that zoom, with a height for each sample.
pub record IsTile (z : ℕ) (c : TileCoord) (v : TileEntry) : Type 0 where
  pub level : c.z ≡ z
  pub deep : z ≤ max_zoom
  pub column : c.x < 2 ^ z
  pub row : c.y < 2 ^ z
  pub samples : length v.heights ≡ tile_size * tile_size

-- All resident tiles are of the cache's one zoom.
abbrev pub OneZoom : Option ℕ → Tiles → Type 0
OneZoom none tiles = length tiles ≡ 0
OneZoom (some z) tiles = Every same_coord (IsTile z) tiles

pub record IsInner {F : Type 0} (inner : TerrainCacheInner F) : Type 0 where
  pub distinct : Distinct same_coord inner.tiles
  pub one_zoom : OneZoom inner.zoom inner.tiles

pub record WellFormed {F : Type 0} (c : TerrainCache F) : Type 0 where
  pub inner : IsInner c.inner
  pub bounded : length c.inner.tiles ≤ c.max_resident
  pub room : 1 ≤ c.max_resident
  -- Nothing is resident before an origin is known.
  pub anchored : c.inner.has_origin ≡ false → length c.inner.tiles ≡ 0

insert-OneZoom :
    (zoom : Option ℕ) (c : TileCoord) (v : TileEntry) (tiles : Tiles)
    → zoom_is zoom c.z ≡ true
    → IsTile c.z c v
    → OneZoom zoom tiles
    → OneZoom zoom (insert same_coord c v tiles)
insert-OneZoom none c v tiles e t h = absurd (cc e)
insert-OneZoom (some z) c v tiles e t h =
    Every-insert same_coord (IsTile z) c v tiles
      (subst (λ w. IsTile w c v) (sym (eqb→eq z c.z e)) t) h

module _ (r : Real) where
  validate_tile-IsTile :
      (c : TileCoord) (v : TileEntry) (lat lon : r.F) (u : Unit {0})
      → validate_tile r c v.heights lat lon ≡ ok u
      → IsTile c.z c v
  unfolding validate_tile
  validate_tile-IsTile c v lat lon u h = record {
    level = refl;
    deep = ground arith;
    column = ground arith;
    row = ground arith;
    samples = ground arith;
  }

  pub with_capacity-WellFormed : (n : ℕ) → WellFormed (with_capacity r n)
  unfolding with_capacity Distinct
  with_capacity-WellFormed n = record {
    inner = record { distinct = tt; one_zoom = refl };
    bounded = omega arith;
    room = omega arith;
    anchored = λ h. refl;
  }

  insert_tile-IsInner :
      (inner : TerrainCacheInner r.F) (c : TileCoord) (v : TileEntry)
      → IsInner inner
      → IsTile c.z c v
      → IsInner (insert_tile r inner (c, v))
  unfolding insert_tile Distinct Every
  insert_tile-IsInner inner c v h t = elim (Bool-cases (zoom_is inner.zoom c.z)) [
    | inl e ↦
        rw (e, insert_tile)
          record {
            distinct =
                Distinct-insert same_coord same_coord_sound same_coord_refl c v inner.tiles
                  h.distinct;
            one_zoom = insert-OneZoom inner.zoom c v inner.tiles e t h.one_zoom;
          }
    | inr e ↦
        rw (e, insert_tile)
          record {
            distinct = Distinct-insert same_coord same_coord_sound same_coord_refl c v [] tt;
            one_zoom = Every-insert same_coord (IsTile c.z) c v [] t tt;
          }
  ]

  -- A batch of validated tiles.
  abbrev AllTiles : List Submitted → Type 0
  AllTiles [] = Unit {0}
  AllTiles (tile ∷ tiles) = IsTile tile.0.z tile.0 tile.1 × AllTiles tiles

  insert_all-IsInner :
      (inner : TerrainCacheInner r.F) (tiles : List Submitted)
      → IsInner inner
      → AllTiles tiles
      → IsInner (insert_all r inner tiles)
  unfolding insert_all
  insert_all-IsInner inner [] h t = h
  insert_all-IsInner inner (tile ∷ tiles) h t =
      insert_all-IsInner (insert_tile r inner tile) tiles
        (insert_tile-IsInner inner tile.0 tile.1 h t.0) t.1

  sort_out-AllTiles :
      (tile : Submitted) (verdict : Result (TileRejection r.F) (Unit {0})) (rest : Sorted r)
      → ((u : Unit {0}) → verdict ≡ ok u → IsTile tile.0.z tile.0 tile.1)
      → AllTiles rest.0
      → AllTiles (sort_out r tile verdict rest).0
  sort_out-AllTiles tile (ok u) rest h t = (h u refl, t)
  sort_out-AllTiles tile (err reason) rest h t = t

  validate_tiles-AllTiles :
      (lat lon : r.F) (tiles : List Submitted) → AllTiles (validate_tiles r lat lon tiles).0
  unfolding validate_tiles
  validate_tiles-AllTiles lat lon [] = tt
  validate_tiles-AllTiles lat lon (tile ∷ tiles) =
      sort_out-AllTiles tile (validate_tile r tile.0 tile.1.heights lat lon)
        (validate_tiles r lat lon tiles) (validate_tile-IsTile tile.0 tile.1 lat lon)
        (validate_tiles-AllTiles lat lon tiles)

  insert_tile-has_origin :
      (inner : TerrainCacheInner r.F) (c : TileCoord) (v : TileEntry)
      → (insert_tile r inner (c, v)).has_origin ≡ inner.has_origin
  unfolding insert_tile
  insert_tile-has_origin inner c v = elim (Bool-cases (zoom_is inner.zoom c.z)) [
    | inl e ↦ rw (e, insert_tile) refl
    | inr e ↦ rw (e, insert_tile) refl
  ]

  insert_all-has_origin :
      (inner : TerrainCacheInner r.F) (tiles : List Submitted)
      → (insert_all r inner tiles).has_origin ≡ inner.has_origin
  unfolding insert_all
  insert_all-has_origin inner [] = refl
  insert_all-has_origin inner (tile ∷ tiles) =
      insert_all-has_origin (insert_tile r inner tile) tiles
      ∙ insert_tile-has_origin inner tile.0 tile.1

  evict_at-same :
      (inner : TerrainCacheInner r.F) (max_resident : ℕ) (north east : r.F) (zoom : Option ℕ)
      → let after = (evict_at r zoom inner max_resident north east).0 in
        (after.zoom ≡ inner.zoom) × (after.has_origin ≡ inner.has_origin)
  unfolding evict_around
  evict_at-same inner max_resident north east none = (refl, refl)
  evict_at-same inner max_resident north east (some z) = (refl, refl)

  evict_to_bound-same :
      (inner : TerrainCacheInner r.F) (max_resident : ℕ) (north east : r.F)
      → let after = (evict_to_bound r inner max_resident north east).0 in
        (after.zoom ≡ inner.zoom) × (after.has_origin ≡ inner.has_origin)
  unfolding evict_to_bound
  evict_to_bound-same inner max_resident north east =
      elim (Bool-cases (leb (length inner.tiles) max_resident)) [
        | inl e ↦ rw (e, evict_to_bound) (refl, refl)
        | inr e ↦ rw (e, evict_to_bound) (evict_at-same inner max_resident north east inner.zoom)
      ]

  OneZoom-empty :
      (zoom : Option ℕ) (tiles : Tiles) → OneZoom zoom tiles → zoom ≡ none → length tiles ≡ 0
  OneZoom-empty none tiles h e = h
  OneZoom-empty (some z) tiles h e = absurd (cc e)

  OneZoom-fewer :
      (zoom : Option ℕ) (before after : Tiles)
      → length after ≤ length before
      → ((P : TileCoord → TileEntry → Type 0)
          → Every same_coord P before
          → Every same_coord P after)
      → OneZoom zoom before
      → OneZoom zoom after
  OneZoom-fewer none before after fewer every h = omega arith
  OneZoom-fewer (some z) before after fewer every h = every (IsTile z) h

  insert_valid-WellFormed :
      (c : TerrainCache r.F) (batch : Sorted r)
      → WellFormed c
      → c.inner.has_origin ≡ true
      → AllTiles batch.0
      → WellFormed (insert_valid r c batch).0
  unfolding insert_valid
  insert_valid-WellFormed c (valid, rejected) w origin t =
      let inner = insert_all r c.inner valid in
      let h = insert_all-IsInner c.inner valid w.inner t in
      let after =
        evict_to_bound-Evicted r inner h.distinct c.max_resident c.vehicle_north c.vehicle_east
          (OneZoom-empty inner.zoom inner.tiles h.one_zoom) in
      let same = evict_to_bound-same inner c.max_resident c.vehicle_north c.vehicle_east in
      record {
        inner = record {
          distinct = after.distinct;
          one_zoom =
              subst
                (λ z.
                  OneZoom z
                    (evict_to_bound r inner c.max_resident c.vehicle_north c.vehicle_east).0.tiles)
                (sym same.0)
                (OneZoom-fewer inner.zoom inner.tiles _ (omega (arith, after.counted))
                  (λ P.
                    evict_to_bound-Every r inner h.distinct P c.max_resident c.vehicle_north
                      c.vehicle_east)
                  h.one_zoom);
        };
        bounded = after.bounded;
        room = w.room;
        anchored = λ q. absurd (cc (q, same.1, insert_all-has_origin c.inner valid, origin));
      }

  insert_seen-WellFormed :
      (has_origin : Bool) (lat lon : r.F) (c : TerrainCache r.F) (size : ℕ) (tiles : List Submitted)
      → (has_origin ≡ true → c.inner.has_origin ≡ true)
      → WellFormed c
      → WellFormed (insert_seen r has_origin lat lon c size tiles).0
  insert_seen-WellFormed has_origin lat lon c size tiles later w =
      elim (Bool-cases (not (size == tile_size))) [
        | inl e ↦ rw e w
        | inr e ↦ elim (Bool-cases has_origin) [
          | inr f ↦ rw (e, f) w
          | inl f ↦
              rw (e, f)
                (insert_valid-WellFormed c (validate_tiles r lat lon tiles) w (later f)
                  (validate_tiles-AllTiles lat lon tiles))
        ]
      ]

  pub insert_tiles-WellFormed :
      (c : TerrainCache r.F) (size : ℕ) (tiles : List Submitted)
      → WellFormed c
      → WellFormed (insert_tiles r c size tiles).0
  unfolding insert_tiles
  insert_tiles-WellFormed c size tiles w =
      insert_seen-WellFormed c.inner.has_origin c.inner.origin_lat c.inner.origin_lon c size tiles
        (λ h. h) w

  moved-WellFormed :
      (moved : Bool) (c : TerrainCache r.F) (lat lon : r.F) (elevation : Option r.F)
      → WellFormed c
      → WellFormed (record c {
        inner = record {
          zoom = if moved then none else c.inner.zoom;
          tiles = if moved then [] else c.inner.tiles;
          origin_lat = lat;
          origin_lon = lon;
          origin_elevation = elevation;
          has_origin = true;
        };
        vehicle_north = r.of_nat 0;
        vehicle_east = r.of_nat 0;
      })
  unfolding Distinct
  moved-WellFormed true c lat lon elevation w = record {
    inner = record { distinct = tt; one_zoom = refl };
    bounded = omega arith;
    room = w.room;
    anchored = λ q. refl;
  }
  moved-WellFormed false c lat lon elevation w = record {
    inner = record { distinct = w.inner.distinct; one_zoom = w.inner.one_zoom };
    bounded = w.bounded;
    room = w.room;
    anchored = λ q. absurd (cc q);
  }

  pub set_origin-WellFormed :
      (c : TerrainCache r.F) (lat lon : r.F) (elevation : Option r.F)
      → WellFormed c
      → WellFormed (set_origin r c lat lon elevation)
  unfolding set_origin
  set_origin-WellFormed c lat lon elevation w =
      moved-WellFormed
        (c.inner.has_origin
          && r.gt (distance_m r c.inner.origin_lat c.inner.origin_lon lat lon)
              (same_origin_meters r))
        c lat lon elevation w

  set_vehicle_ned-WellFormed :
      (c : TerrainCache r.F) (north east : r.F)
      → WellFormed c
      → WellFormed (set_vehicle_ned r c north east)
  unfolding set_vehicle_ned
  set_vehicle_ned-WellFormed c north east w = record {
    inner = w.inner;
    bounded = w.bounded;
    room = w.room;
    anchored = w.anchored;
  }

  -- The operations that change the cache, in the order in which they take the lock to write.
  -- `ingest_late` is a batch that read an origin before operations that came between; since an
  -- origin is never lost, there is one at that cache, and at a cache without one it is no batch.
  pub data Operation : Type 0 where
    anchor : (lat lon : r.F) (elevation : Option r.F) → Operation
    move : (north east : r.F) → Operation
    ingest : (size : ℕ) (tiles : List Submitted) → Operation
    ingest_late : (lat lon : r.F) (size : ℕ) (tiles : List Submitted) → Operation

  unfoldable pub apply : Operation → TerrainCache r.F → TerrainCache r.F
  apply (anchor lat lon elevation) c = set_origin r c lat lon elevation
  apply (move north east) c = set_vehicle_ned r c north east
  apply (ingest size tiles) c = (insert_tiles r c size tiles).0
  apply (ingest_late lat lon size tiles) c =
      if c.inner.has_origin then (insert_seen r true lat lon c size tiles).0 else c

  unfoldable pub run : List Operation → TerrainCache r.F → TerrainCache r.F
  run [] c = c
  run (o ∷ l) c = run l (apply o c)

  WellFormed-if :
      (t : Bool) (x y : TerrainCache r.F)
      → (t ≡ true → WellFormed x)
      → WellFormed y
      → WellFormed (if t then x else y)
  WellFormed-if true x y f w = f refl
  WellFormed-if false x y f w = w

  apply-WellFormed : (o : Operation) (c : TerrainCache r.F) → WellFormed c → WellFormed (apply o c)
  unfolding apply
  apply-WellFormed (anchor lat lon elevation) c w = set_origin-WellFormed c lat lon elevation w
  apply-WellFormed (move north east) c w = set_vehicle_ned-WellFormed c north east w
  apply-WellFormed (ingest size tiles) c w = insert_tiles-WellFormed c size tiles w
  apply-WellFormed (ingest_late lat lon size tiles) c w =
      WellFormed-if c.inner.has_origin (insert_seen r true lat lon c size tiles).0 c
        (λ h. insert_seen-WellFormed true lat lon c size tiles (λ q. h) w) w

  run-from : (l : List Operation) (c : TerrainCache r.F) → WellFormed c → WellFormed (run l c)
  unfolding run
  run-from [] c w = w
  run-from (o ∷ l) c w = run-from l (apply o c) (apply-WellFormed o c w)

  -- After any origins, positions and batches of tiles, a new cache holds no coordinate twice and
  -- no more tiles than its bound, which is at least one; all tiles are of one zoom of at most 24,
  -- lie within it and have 65536 heights; and without an origin it is empty.
  pub run-WellFormed :
      (max_resident : ℕ) (l : List Operation) → WellFormed (run l (with_capacity r max_resident))
  run-WellFormed max_resident l =
      run-from l (with_capacity r max_resident) (with_capacity-WellFormed max_resident)
