-- ===== src/Handler/Ingress.antt =====
-- The `TerrainTiles` case of `handle_message` in crates/websocket/src/handler.rs: a decoded frame
-- goes to the terrain cache. `from_bits` makes an `f64` of the bits that the frame carries.
use hitl_daemon.Base.{
  ℕ, suc, Bool, false, not, ◌==◌, ◌+◌, if◌then◌else◌, Option, none, some, List, [], ◌∷◌, length,
  get_elem?, Result, ok, err,
}
use hitl_daemon.Protocol.Tiles.{WireTileCoord, TerrainTiles}
use hitl_daemon.Terrain.Geo.{Real, TileCoord}
use hitl_daemon.Terrain.Cache.{TileRejection, TerrainCache, Submitted, is_anchored_to, insert_tiles}

pub data IngressError (F : Type 0) : Type 0 where
  not_configured : IngressError F
  other_origin : (lat lon : F) → IngressError F
  all_rejected : ℕ → TileCoord × TileRejection F → IngressError F

abbrev pub flag_or_false : Option Bool → Bool
flag_or_false none = false
flag_or_false (some b) = b

-- `coords.zip(tiles).enumerate()`, from the position `i` on.
unfoldable pub submitted : List Bool → (i : ℕ) → List WireTileCoord → List (List ℕ) → List Submitted
submitted approximate i [] tiles = []
submitted approximate i (c ∷ coords) [] = []
submitted approximate i (c ∷ coords) (heights ∷ tiles) =
    (
      record { x = c.x; y = c.y; z = c.z },
      record { heights = heights; approximate = flag_or_false (get_elem? approximate i) },
    )
    ∷ submitted approximate (i + 1) coords tiles

module _ (r : Real) (from_bits : ℕ → r.F) where
  -- `Ok(None)` unless nothing survived.
  abbrev pub answer :
      ℕ → List (TileCoord × TileRejection r.F) → Result (IngressError r.F) (Unit {0})
  answer accepted [] = ok tt
  answer accepted (first ∷ rejected) =
      if accepted == 0 then err (all_rejected (suc (length rejected)) first) else ok tt

  unfoldable pub ingest :
      TerrainCache r.F → TerrainTiles → TerrainCache r.F × Result (IngressError r.F) (Unit {0})
  ingest cache frame =
      let lat = from_bits frame.header.origin.lat in
      let lon = from_bits frame.header.origin.lon in
      if not (is_anchored_to r cache lat lon)
      then (cache, err (other_origin lat lon))
      else let report =
          insert_tiles r cache frame.header.tile_size
            (submitted frame.header.approximate 0 frame.header.coords frame.tiles) in
        (report.0, answer report.1.accepted report.1.rejected)

  unfoldable pub handle_tiles :
      Option (TerrainCache r.F)
      → TerrainTiles
      → Option (TerrainCache r.F) × Result (IngressError r.F) (Unit {0})
  handle_tiles none frame = (none, err not_configured)
  handle_tiles (some cache) frame = let done = ingest cache frame in (some done.0, done.1)
