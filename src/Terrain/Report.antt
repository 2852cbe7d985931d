-- ===== src/Terrain/Report.antt =====
-- The report of a batch of tiles, and what a refused batch leaves as it was.
use hitl_daemon.Base.{
  ℕ, suc, true, not, ◌+◌, ◌≤◌, ◌≡◌, refl, ap, ◌∙◌, leb, ◌==◌, List, [], ◌∷◌, length, arith,
  Bool-cases, inl, inr, Result, ok, err,
}
use hitl_daemon.Terrain.Geo.{Real, tile_size}
use hitl_daemon.Terrain.Cache.{
  TileRejection, TerrainCacheInner, TerrainCache, InsertReport, Submitted, validate_tile, sort_out,
  Sorted, validate_tiles, insert_all, evict_to_bound, reject_all, insert_valid, insert_tiles,
}
use hitl_daemon.Terrain.Invariant.{WellFormed}

module _ (r : Real) where
  length-reject_all :
      (reason : TileRejection r.F) (tiles : List Submitted)
      → length (reject_all r reason tiles) ≡ length tiles
  length-reject_all reason [] = refl
  length-reject_all reason (tile ∷ tiles) = ap suc (length-reject_all reason tiles)

  abbrev size_of : Sorted r → ℕ
  size_of batch = length batch.0 + length batch.1

  size_of-sort_out :
      (tile : Submitted) (verdict : Result (TileRejection r.F) (Unit {0})) (batch : Sorted r)
      → size_of (sort_out r tile verdict batch) ≡ suc (size_of batch)
  size_of-sort_out tile (ok u) (valid, rejected) = omega arith
  size_of-sort_out tile (err reason) (valid, rejected) = omega arith

  size_of-validate_tiles :
      (lat lon : r.F) (tiles : List Submitted)
      → size_of (validate_tiles r lat lon tiles) ≡ length tiles
  unfolding validate_tiles
  size_of-validate_tiles lat lon [] = omega arith
  size_of-validate_tiles lat lon (tile ∷ tiles) =
      size_of-sort_out tile (validate_tile r tile.0 tile.1.heights lat lon)
        (validate_tiles r lat lon tiles)
      ∙ ap suc (size_of-validate_tiles lat lon tiles)

  -- What a call says of its batch: every tile was accepted or rejected, and a batch of which none
  -- was accepted left the cache as it was.
  pub record Told (c : TerrainCache r.F) (tiles : List Submitted)
      (result : TerrainCache r.F × InsertReport r.F) : Type 0 where
    pub all : result.1.accepted + length result.1.rejected ≡ length tiles
    pub untouched : result.1.accepted ≡ 0 → result.0 ≡ c

  evict_to_bound-within :
      (inner : TerrainCacheInner r.F) (max_resident : ℕ) (north east : r.F)
      → length inner.tiles ≤ max_resident
      → evict_to_bound r inner max_resident north east ≡ (inner, 0)
  unfolding evict_to_bound
  evict_to_bound-within inner max_resident north east h =
      let e : leb (length inner.tiles) max_resident ≡ true = ground arith in
      rw (e, evict_to_bound) refl

  insert_valid-nothing :
      (c : TerrainCache r.F) (batch : Sorted r)
      → WellFormed c
      → length batch.0 ≡ 0
      → (insert_valid r c batch).0 ≡ c
  unfolding insert_valid insert_all
  insert_valid-nothing c ([], rejected) w h =
      ap (λ (p : TerrainCacheInner r.F × ℕ). record c { inner = p.0 })
        (evict_to_bound-within c.inner c.max_resident c.vehicle_north c.vehicle_east w.bounded)
  insert_valid-nothing c ((tile ∷ valid), rejected) w h = absurd (omega arith)

  insert_valid-Told :
      (c : TerrainCache r.F) (lat lon : r.F) (tiles : List Submitted)
      → WellFormed c
      → Told c tiles (insert_valid r c (validate_tiles r lat lon tiles))
  unfolding insert_valid
  insert_valid-Told c lat lon tiles w = record {
    all = size_of-validate_tiles lat lon tiles;
    untouched = insert_valid-nothing c (validate_tiles r lat lon tiles) w;
  }

  refused-Told :
      (c : TerrainCache r.F) (reason : TileRejection r.F) (tiles : List Submitted)
      → Told c tiles (c, record { accepted = 0; rejected = reject_all r reason tiles; evicted = 0 })
  refused-Told c reason tiles = record {
    all = omega (arith, length-reject_all reason tiles);
    untouched = λ h. refl;
  }

  -- The report of a batch counts every tile as accepted or rejected, and a batch of which no tile
  -- was accepted leaves a well-formed cache as it was.
  pub insert_tiles-Told :
      (c : TerrainCache r.F) (size : ℕ) (tiles : List Submitted)
      → WellFormed c
      → Told c tiles (insert_tiles r c size tiles)
  unfolding insert_tiles
  insert_tiles-Told c size tiles w = elim (Bool-cases (not (size == tile_size))) [
    | inl e ↦ rw (e, insert_tiles) (refused-Told c _ tiles)
    | inr e ↦ elim (Bool-cases (not c.inner.has_origin)) [
      | inl f ↦ rw (e, insert_tiles) rw (f, insert_tiles) (refused-Told c _ tiles)
      | inr f ↦
          rw (e, insert_tiles) rw (f, insert_tiles)
            (insert_valid-Told c c.inner.origin_lat c.inner.origin_lon tiles w)
    ]
  ]
