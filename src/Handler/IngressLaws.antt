-- ===== src/Handler/IngressLaws.antt =====
-- What a terrain frame does to the cache, from the bytes to the resident tiles.
use hitl_daemon.Base.{
  ℕ, suc, Bool, not, ◌==◌, ◌+◌, ◌≡◌, refl, ap, subst, ◌∙◌, if◌then◌else◌, Option, List, [], ◌∷◌,
  length, Result, ok, err, arith, Bool-cases, inl, inr, eqb→eq,
}
use hitl_daemon.Protocol.Tiles.{WireTileCoord, TerrainTilesHeader, TerrainTiles, from_bytes}
use hitl_daemon.Protocol.TileLaws.{from_bytes-Whole}
use hitl_daemon.Terrain.Geo.{Real, TileCoord}
use hitl_daemon.Terrain.Cache.{TileRejection, TerrainCache, is_anchored_to, insert_tiles}
use hitl_daemon.Terrain.Invariant.{WellFormed, insert_tiles-WellFormed}
use hitl_daemon.Terrain.Report.{insert_tiles-Told}
use hitl_daemon.Handler.Ingress.{IngressError, all_rejected, submitted, answer, ingest}

-- Each coordinate of a complete frame is submitted with its tile.
length-submitted :
    (approximate : List Bool) (i : ℕ) (coords : List WireTileCoord) (tiles : List (List ℕ))
    → length tiles ≡ length coords
    → length (submitted approximate i coords tiles) ≡ length coords
unfolding submitted
length-submitted approximate i [] tiles h = refl
length-submitted approximate i (c ∷ coords) [] h = absurd (omega arith)
length-submitted approximate i (c ∷ coords) (t ∷ tiles) h =
    ap suc (length-submitted approximate (i + 1) coords tiles (omega arith))

module _ (r : Real) (from_bits : ℕ → r.F) where
  -- What a frame does: the cache stays well formed, and an error leaves it as it was.
  pub record Ingested (cache : TerrainCache r.F) (frame : TerrainTiles)
      (done : TerrainCache r.F × Result (IngressError r.F) (Unit {0})) : Type 0 where
    pub well_formed : WellFormed done.0
    pub untouched : (e : IngressError r.F) → done.1 ≡ err e → done.0 ≡ cache

  answer-err :
      (accepted : ℕ) (rejected : List (TileCoord × TileRejection r.F)) (e : IngressError r.F)
      → answer r from_bits accepted rejected ≡ err e
      → accepted ≡ 0
  answer-err accepted [] e h = absurd (cc h)
  answer-err accepted (first ∷ rejected) e h = elim (Bool-cases (accepted == 0)) [
    | inl z ↦ eqb→eq accepted 0 z
    | inr z ↦ absurd (
        cc (
          subst
            (λ b. (if b then err (all_rejected (suc (length rejected)) first) else ok tt) ≡ err e) z
            h))
  ]

  -- A terrain frame leaves a well-formed cache well formed, and one that is answered with an error
  -- leaves it as it was.
  pub ingest-Ingested :
      (cache : TerrainCache r.F) (frame : TerrainTiles)
      → WellFormed cache
      → Ingested cache frame (ingest r from_bits cache frame)
  unfolding ingest
  ingest-Ingested cache frame w =
      elim (Bool-cases (
        not (
          is_anchored_to r cache (from_bits frame.header.origin.lat)
            (from_bits frame.header.origin.lon)))) [
              | inl e ↦ rw (e, ingest) record { well_formed = w; untouched = λ x q. refl }
              | inr e ↦
                  rw (e, ingest)
                    (let tiles =
                        submitted frame.header.approximate 0 frame.header.coords frame.tiles in
                      let told = insert_tiles-Told r cache frame.header.tile_size tiles w in
                      record {
                        well_formed =
                            insert_tiles-WellFormed r cache frame.header.tile_size tiles w;
                        untouched = λ x q. told.untouched (
                            answer-err
                              (insert_tiles r cache frame.header.tile_size tiles).1.accepted
                              (insert_tiles r cache frame.header.tile_size tiles).1.rejected x q);
                      })
            ]

  -- From the bytes on: each coordinate of a decoded frame is accepted or rejected.
  pub ingest-counts :
      (from_slice : List ℕ → Option TerrainTilesHeader) (bytes : List ℕ) (frame : TerrainTiles)
      (cache : TerrainCache r.F)
      → from_bytes from_slice bytes ≡ ok frame
      → WellFormed cache
      → let report =
          (insert_tiles r cache frame.header.tile_size
            (submitted frame.header.approximate 0 frame.header.coords frame.tiles)).1 in
        report.accepted + length report.rejected ≡ length frame.header.coords
  ingest-counts from_slice bytes frame cache decoded w =
      let tiles = submitted frame.header.approximate 0 frame.header.coords frame.tiles in
      (insert_tiles-Told r cache frame.header.tile_size tiles w).all
      ∙ length-submitted frame.header.approximate 0 frame.header.coords frame.tiles
          (from_bytes-Whole from_slice bytes frame decoded).count
