-- ===== src/Terrain/Missing.antt =====
-- The tiles that the daemon asks for are the ones around the vehicle that it does not hold.
use hitl_daemon.Base.{
  ℕ, zero, suc, Bool, true, false, not, ◌||◌, ◌+◌, ◌*◌, ◌<◌, ◌≤◌, ◌≡◌, refl, ap, subst,
  if◌then◌else◌, Option, none, some, List, [], ◌∷◌, ◌++◌, arith, any_of, ℕ_discrete,
}
use hitl_daemon.Terrain.Keyed.{contains_key}
use hitl_daemon.Terrain.Geo.{Real, TileCoord, same_coord, same_coord_sound, same_coord_refl}
use hitl_daemon.Terrain.Cache.{Tiles, TerrainCache, centre_of}
use hitl_daemon.Terrain.Reads.{
  neighbour, missing_in_row, missing_rows, missing_at, missing_around_vehicle,
}

abbrev pub asks : TileCoord → List TileCoord → Bool
asks k l = any_of (same_coord k) l

abbrev pub holds : TileCoord → Tiles → Bool
holds = contains_key same_coord

asks-append : (k : TileCoord) (l m : List TileCoord) → asks k (l ++ m) ≡ (asks k l || asks k m)
asks-append k [] m = refl
asks-append k (c ∷ l) m = ground (arith, asks-append k l m)

holds-same :
    (k c : TileCoord) (tiles : Tiles) → same_coord k c ≡ true → holds k tiles ≡ holds c tiles
holds-same k c tiles h = ap (λ a. holds a tiles) (same_coord_sound k c h)

module _ (tiles : Tiles) (centre : TileCoord) (radius : ℕ) where
  row-asks-missing :
      (k : TileCoord) (dy dx left : ℕ)
      → asks k (missing_in_row tiles centre radius dy dx left) ≡ true
      → holds k tiles ≡ false
  unfolding missing_in_row
  row-asks-missing k dy dx zero h = absurd (cc h)
  row-asks-missing k dy dx (suc left) h = ground (
    arith,
    h,
    row-asks-missing k dy (suc dx) left,
    holds-same k (neighbour centre radius dx dy) tiles,
  )

  rows-ask-missing :
      (k : TileCoord) (dy left : ℕ)
      → asks k (missing_rows tiles centre radius dy left) ≡ true
      → holds k tiles ≡ false
  unfolding missing_rows
  rows-ask-missing k dy zero h = absurd (cc h)
  rows-ask-missing k dy (suc left) h = ground (
    arith,
    h,
    row-asks-missing k dy 0 (2 * radius + 1),
    rows-ask-missing k (suc dy) left,
    asks-append k (missing_in_row tiles centre radius dy 0 (2 * radius + 1))
        (missing_rows tiles centre radius (suc dy) left),
  )

  -- A tile that is held or asked for.
  abbrev Known : TileCoord → List TileCoord → Type 0
  Known k l = (holds k tiles || asks k l) ≡ true

  row-here :
      (dy dx left : ℕ)
      → Known (neighbour centre radius dx dy) (missing_in_row tiles centre radius dy dx (suc left))
  unfolding missing_in_row
  row-here dy dx left = ground (arith, same_coord_refl (neighbour centre radius dx dy))

  row-later :
      (k : TileCoord) (dy dx left : ℕ)
      → Known k (missing_in_row tiles centre radius dy (suc dx) left)
      → Known k (missing_in_row tiles centre radius dy dx (suc left))
  unfolding missing_in_row
  row-later k dy dx left h = ground (arith, h)

  row-Known :
      (dy dx left offset : ℕ)
      → dx ≤ offset
      → offset < dx + left
      → Known (neighbour centre radius offset dy) (missing_in_row tiles centre radius dy dx left)
  row-Known dy dx zero offset low high = absurd (omega arith)
  row-Known dy dx (suc left) offset low high = elim (ℕ_discrete dx offset) [
    | yes e ↦
        subst
          (λ o.
            Known (neighbour centre radius o dy)
              (missing_in_row tiles centre radius dy dx (suc left)))
          e (row-here dy dx left)
    | no n ↦
        row-later (neighbour centre radius offset dy) dy dx left
          (row-Known dy (suc dx) left offset (omega arith) (omega arith))
  ]

  rows-Known :
      (dy left offset dx : ℕ)
      → dy ≤ offset
      → offset < dy + left
      → dx ≤ 2 * radius
      → Known (neighbour centre radius dx offset) (missing_rows tiles centre radius dy left)
  unfolding missing_rows
  rows-Known dy zero offset dx low high wide = absurd (omega arith)
  rows-Known dy (suc left) offset dx low high wide =
      let k = neighbour centre radius dx offset in
      let split =
        asks-append k (missing_in_row tiles centre radius dy 0 (2 * radius + 1))
          (missing_rows tiles centre radius (suc dy) left) in
      elim (ℕ_discrete dy offset) [
        | yes e ↦ ground (
          arith,
          split,
          subst
              (λ o.
                Known (neighbour centre radius dx o)
                  (missing_in_row tiles centre radius dy 0 (2 * radius + 1)))
              e (row-Known dy 0 (2 * radius + 1) dx (omega arith) (omega arith)),
        )
        | no n ↦
            ground
              (arith, split, rows-Known (suc dy) left offset dx (omega arith) (omega arith) wide)
      ]

module _ (r : Real) (c : TerrainCache r.F) (radius : ℕ) where
  abbrev centre_at : ℕ → TileCoord
  centre_at z = centre_of r c.inner c.vehicle_north c.vehicle_east z

  -- What is asked for at the zoom `z`, once an origin is known.
  abbrev asked_at : Bool → ℕ → List TileCoord
  asked_at known z =
      if not known then [] else missing_rows c.inner.tiles (centre_at z) radius 0 (2 * radius + 1)

  asked_at-missing :
      (known : Bool) (z : ℕ) (k : TileCoord)
      → asks k (asked_at known z) ≡ true
      → holds k c.inner.tiles ≡ false
  asked_at-missing true z k h =
      rows-ask-missing c.inner.tiles (centre_at z) radius k 0 (2 * radius + 1) h
  asked_at-missing false z k h = absurd (cc h)

  missing_at-asks :
      (zoom : Option ℕ) (k : TileCoord)
      → asks k (missing_at r zoom c radius) ≡ true
      → holds k c.inner.tiles ≡ false
  missing_at-asks none k h = absurd (cc h)
  missing_at-asks (some z) k h = asked_at-missing c.inner.has_origin z k h

  pub missing_around_vehicle-asks :
      (k : TileCoord)
      → asks k (missing_around_vehicle r c radius) ≡ true
      → holds k c.inner.tiles ≡ false
  unfolding missing_around_vehicle
  missing_around_vehicle-asks = missing_at-asks c.inner.zoom

  module _ (dx dy : ℕ) (wide : dx ≤ 2 * radius) (high : dy ≤ 2 * radius) where
    -- The tile at these offsets from the vehicle's is held or asked for.
    abbrev Covered : ℕ → List TileCoord → Type 0
    Covered z l =
        let k = neighbour (centre_at z) radius dx dy in (holds k c.inner.tiles || asks k l) ≡ true

    asked_at-Covered : (known : Bool) (z : ℕ) → known ≡ true → Covered z (asked_at known z)
    asked_at-Covered true z h =
        rows-Known c.inner.tiles (centre_at z) radius 0 (2 * radius + 1) dy dx (omega arith)
          (omega arith) wide
    asked_at-Covered false z h = absurd (cc h)

    missing_at-Covered :
        (zoom : Option ℕ) (z : ℕ)
        → zoom ≡ some z
        → c.inner.has_origin ≡ true
        → Covered z (missing_at r zoom c radius)
    missing_at-Covered none z at origin = absurd (cc at)
    missing_at-Covered (some y) z at origin =
        let q : y ≡ z = cc at in
        subst (λ w. Covered w (asked_at c.inner.has_origin y)) q
          (asked_at-Covered c.inner.has_origin y origin)

    -- With an origin and a zoom known, every tile within the radius of the vehicle's tile, clamped
    -- at zero, is resident or is reported as missing.
    pub missing_around_vehicle-covers :
        (z : ℕ)
        → c.inner.zoom ≡ some z
        → c.inner.has_origin ≡ true
        → let k = neighbour (centre_at z) radius dx dy in
          (holds k c.inner.tiles || asks k (missing_around_vehicle r c radius)) ≡ true
    unfolding missing_around_vehicle
    missing_around_vehicle-covers = missing_at-Covered c.inner.zoom
