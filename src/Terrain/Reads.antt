-- ===== src/Terrain/Reads.antt =====
-- The reads of `TerrainCache` in crates/terrain/src/lib.rs: which tiles are missing around the
-- vehicle, and whether any is there.
use hitl_daemon.Base.{
  ℕ, zero, suc, Bool, false, not, ◌||◌, ◌+◌, ◌*◌, ◌-◌, ◌%◌, ◌==◌, if◌then◌else◌, Option, none, some,
  List, [], ◌∷◌, ◌++◌, length,
}
use hitl_daemon.Terrain.Keyed.{contains_key}
use hitl_daemon.Terrain.Geo.{Real, TileCoord, same_coord}
use hitl_daemon.Terrain.Cache.{Tiles, TerrainCache, centre_of}

-- `(centre as i64 + d).max(0) as u32`, where `d` is `offset` less the radius.
abbrev pub shifted : ℕ → ℕ → ℕ → ℕ
shifted centre radius offset = (centre + offset - radius) % 4294967296

abbrev pub neighbour : TileCoord → ℕ → ℕ → ℕ → TileCoord
neighbour centre radius dx dy = record {
  x = shifted centre.x radius dx;
  y = shifted centre.y radius dy;
  z = centre.z;
}

-- The loop over `dx`, where `left` offsets are still to come.
unfoldable pub missing_in_row : Tiles → TileCoord → (radius dy dx left : ℕ) → List TileCoord
missing_in_row tiles centre radius dy dx zero = []
missing_in_row tiles centre radius dy dx (suc left) =
    let rest = missing_in_row tiles centre radius dy (suc dx) left in
    if contains_key same_coord (neighbour centre radius dx dy) tiles
    then rest
    else neighbour centre radius dx dy ∷ rest

-- The loop over `dy`.
unfoldable pub missing_rows : Tiles → TileCoord → (radius dy left : ℕ) → List TileCoord
missing_rows tiles centre radius dy zero = []
missing_rows tiles centre radius dy (suc left) =
    missing_in_row tiles centre radius dy 0 (2 * radius + 1)
    ++ missing_rows tiles centre radius (suc dy) left

unfoldable pub any_approximate : Tiles → Bool
any_approximate [] = false
any_approximate ((c, v) ∷ tiles) = v.approximate || any_approximate tiles

module _ (r : Real) where
  open r use {F, of_nat, add, sub, mul, div}

  abbrev pub missing_at : Option ℕ → TerrainCache F → ℕ → List TileCoord
  missing_at none c radius = []
  missing_at (some z) c radius =
      if not c.inner.has_origin
      then []
      else missing_rows c.inner.tiles (centre_of r c.inner c.vehicle_north c.vehicle_east z) radius
          0 (2 * radius + 1)

  unfoldable pub missing_around_vehicle : TerrainCache F → ℕ → List TileCoord
  missing_around_vehicle c radius = missing_at c.inner.zoom c radius

  unfoldable pub is_loaded : TerrainCache F → Bool
  is_loaded c = elim c.inner.zoom [ none ↦ false | some z ↦ not (length c.inner.tiles == 0) ]
