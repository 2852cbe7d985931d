-- ===== src/Protocol/TileRoundtrip.antt =====
-- A terrain frame decodes to what was encoded, with and without the padding that aligns it.
use hitl_daemon.Base.{
  drop-add, ℕ, true, ◌+◌, ◌-◌, ◌*◌, ◌%◌, ◌≤◌, ◌<◌, ◌≡◌, ◌⊎◌, inl, inr, refl, ap, subst, sym, ◌∙◌,
  Option, some, List, [], ◌∷◌, ◌++◌, map, length, drop, ok, u64_max, length-append, arith,
}
use hitl_daemon.Protocol.Bytes.{to_le_bytes, from_le_bytes, slice, byte_at, le4}
use hitl_daemon.Protocol.Errors.{Reason, tile_size_overflows, payload_size_overflows}
use hitl_daemon.Protocol.Tiles.{
  TerrainTilesHeader, TerrainTiles, msg_type_terrain_tiles, max_frame_bytes, checked, heights,
  bytes_of_tile, flags_match, body_start, tiles_from, parse_body, parse_header, from_bytes,
  tile_bytes, tiles_bytes, to_bytes,
}
use hitl_daemon.Protocol.TileLaws.{square_pos}
use hitl_daemon.Protocol.Chunks.{
  Sized, chunks_exact-join, FitsAll, heights-tile_bytes, take-append, drop-append,
  tile_bytes-length,
}

-- The frame with bytes between the header and the payload.
abbrev pub frame : (TerrainTilesHeader → List ℕ) → List ℕ → TerrainTiles → List ℕ
frame to_vec pad t =
    let header = to_vec t.header in
    msg_type_terrain_tiles
    ∷ (to_le_bytes 4 (length header % 4294967296) ++ (header ++ (pad ++ tiles_bytes t.tiles)))

-- Tiles of one size, with heights that are 32-bit patterns.
abbrev pub FitsTiles : ℕ → List (List ℕ) → Type 0
FitsTiles k [] = Unit {0}
FitsTiles k (tile ∷ tiles) = ((length tile ≡ k) × FitsAll tile) × FitsTiles k tiles

pub record FitsFrame (t : TerrainTiles) : Type 0 where
  pub positive : 0 < t.header.tile_size
  pub small : t.header.tile_size * t.header.tile_size * 4 ≤ u64_max
  pub flags : flags_match t.header ≡ true
  pub count : length t.tiles ≡ length t.header.coords
  pub tiles : FitsTiles (t.header.tile_size * t.header.tile_size) t.tiles

FitsTiles-Sized :
    (k : ℕ) (tiles : List (List ℕ)) → FitsTiles k tiles → Sized (k * 4) (map tile_bytes tiles)
FitsTiles-Sized k [] fits = tt
FitsTiles-Sized k (tile ∷ tiles) fits =
    (omega (arith, tile_bytes-length tile, fits.0.0), FitsTiles-Sized k tiles fits.1)

heights-tiles :
    (k : ℕ) (tiles : List (List ℕ)) → FitsTiles k tiles → map heights (map tile_bytes tiles) ≡ tiles
heights-tiles k [] fits = refl
heights-tiles k (tile ∷ tiles) fits =
    λ i. heights-tile_bytes tile fits.0.1 i ∷ heights-tiles k tiles fits.1 i

length-tiles_bytes :
    (k : ℕ) (tiles : List (List ℕ))
    → FitsTiles k tiles
    → length (tiles_bytes tiles) ≡ length tiles * (k * 4)
unfolding tiles_bytes
length-tiles_bytes k [] fits = omega arith
length-tiles_bytes k (tile ∷ tiles) fits = omega (
  arith,
  length-append {0} (tile_bytes tile) (tiles_bytes tiles),
  tile_bytes-length tile,
  fits.0.0,
  length-tiles_bytes k tiles fits.1,
)

from_bytes-header :
    (from_slice : List ℕ → Option TerrainTilesHeader) (bytes : List ℕ) (n : ℕ)
    → length bytes ≤ max_frame_bytes
    → 5 ≤ length bytes
    → byte_at 0 bytes ≡ msg_type_terrain_tiles
    → from_le_bytes (slice 1 4 bytes) ≡ n
    → 5 + n ≤ length bytes
    → from_bytes from_slice bytes ≡ parse_header bytes (5 + n) (from_slice (slice 5 n bytes))
unfolding from_bytes
from_bytes-header from_slice bytes n small long tag len inside = ground arith

checked-small : (reason : Reason) (n : ℕ) → n ≤ u64_max → checked reason n ≡ ok n
unfolding checked
checked-small reason n h = ground arith

bytes_of_tile-small :
    (h : TerrainTilesHeader)
    → 0 < h.tile_size
    → h.tile_size * h.tile_size * 4 ≤ u64_max
    → bytes_of_tile h ≡ ok (h.tile_size * h.tile_size * 4)
bytes_of_tile-small h pos small = ground (
  arith,
  checked-small tile_size_overflows (h.tile_size * h.tile_size) (omega arith),
  checked-small tile_size_overflows (h.tile_size * h.tile_size * 4) small,
)

-- The number of filler bytes that end a header of `n` bytes at a multiple of four.
abbrev pub filler : ℕ → ℕ
filler n = (4 - (5 + n) % 4) % 4

body_start-plain : (he e : ℕ) → body_start (he + e) he e ≡ some he
unfolding body_start
body_start-plain he e = ground arith

body_start-padded :
    (he e p : ℕ) → p ≡ (4 - he % 4) % 4 → body_start (he + p + e) he e ≡ some (he + p)
unfolding body_start
body_start-padded he e p h = ground arith

module _ (h : TerrainTilesHeader) (tiles : List (List ℕ))
    (fits : FitsFrame record { header = h; tiles = tiles }) where
  abbrev size : ℕ
  size = h.tile_size * h.tile_size * 4

  tiles_from-some :
      (bytes : List ℕ) (rest start : ℕ)
      → drop start bytes ≡ tiles_bytes tiles
      → tiles_from bytes h size rest (some start) ≡ ok record { header = h; tiles = tiles }
  unfolding tiles_from
  tiles_from-some bytes rest start e =
      rw e rw
        (chunks_exact-join size (square_pos h.tile_size fits.positive) (length (tiles_bytes tiles))
          tiles (FitsTiles-Sized _ tiles fits.tiles) (omega arith))
        rw (heights-tiles _ tiles fits.tiles) refl

  parse_body-frame :
      (bytes : List ℕ) (he start : ℕ)
      → length bytes ≤ max_frame_bytes
      → length (tiles_bytes tiles) ≤ length bytes
      → body_start (length bytes) he (length (tiles_bytes tiles)) ≡ some start
      → drop start bytes ≡ tiles_bytes tiles
      → parse_body bytes he h ≡ ok record { header = h; tiles = tiles }
  unfolding parse_body
  parse_body-frame bytes he start small inside begins e =
      let expected : length h.coords * size ≡ length (tiles_bytes tiles) = sym (
        length-tiles_bytes (h.tile_size * h.tile_size) tiles fits.tiles
        ∙ ap (λ c. c * size) fits.count) in
      rw (bytes_of_tile-small h fits.positive fits.small, parse_body) rw (fits.flags, parse_body) rw
        expected rw
        (checked-small payload_size_overflows (length (tiles_bytes tiles)) (omega arith)) rw begins
        (tiles_from-some bytes (length bytes - he) start e)

-- Padding that the decoder looks past: none, or what aligns the payload.
abbrev pub Aligns : ℕ → List ℕ → Type 0
Aligns n pad = (length pad ≡ 0) ⊎ (length pad ≡ filler n)

body_start-Aligns :
    (n e : ℕ) (pad : List ℕ)
    → Aligns n pad
    → body_start (5 + n + length pad + e) (5 + n) e ≡ some (5 + n + length pad)
unfolding body_start
body_start-Aligns n e pad (inl h) = ground arith
body_start-Aligns n e pad (inr h) = body_start-padded (5 + n) e (length pad) h

module _ (to_vec : TerrainTilesHeader → List ℕ) (t : TerrainTiles) (pad : List ℕ) where
  abbrev header : List ℕ
  header = to_vec t.header

  abbrev body : List ℕ
  body = tiles_bytes t.tiles

  length-frame : length (frame to_vec pad t) ≡ 5 + length header + length pad + length body
  length-frame = omega (arith, length-append {0} header (pad ++ body), length-append {0} pad body)

  frame-body : drop (5 + length header + length pad) (frame to_vec pad t) ≡ body
  frame-body =
      drop-add (5 + length header) (length pad) (frame to_vec pad t)
      ∙ (ap (drop (length pad))
            (drop-add 5 (length header) (frame to_vec pad t) ∙ drop-append header (pad ++ body))
          ∙ drop-append pad body)

  module _ (from_slice : List ℕ → Option TerrainTilesHeader)
      (read : from_slice header ≡ some t.header) (fits : FitsFrame t) where
    -- If the JSON reader reads the header back, a terrain frame within the size limit whose tiles
    -- are of the declared size, one for each coordinate, with 32-bit heights and matching flags,
    -- is decoded to the tiles that were encoded, both without padding and with the bytes that
    -- align its payload to four.
    pub from_bytes-frame :
        Aligns (length header) pad
        → length (frame to_vec pad t) ≤ max_frame_bytes
        → from_bytes from_slice (frame to_vec pad t) ≡ ok t
    unfolding parse_header
    from_bytes-frame aligned small =
        let n = length header in
        let bytes = frame to_vec pad t in
        let len : n % 4294967296 ≡ n = omega (arith, length-frame) in
        let parsed =
          parse_body-frame t.header t.tiles fits bytes (5 + n) (5 + n + length pad) small
            (omega (arith, length-frame))
            (subst (λ l. body_start l (5 + n) (length body) ≡ some (5 + n + length pad))
              (sym length-frame) (body_start-Aligns n (length body) pad aligned))
            frame-body in
        from_bytes-header from_slice bytes n small (omega (arith, length-frame)) refl
          (le4 (n % 4294967296) (omega arith) ∙ len) (omega (arith, length-frame))
        ∙ (ap (parse_header bytes (5 + n)) (ap from_slice (take-append header (pad ++ body)) ∙ read)
            ∙ parsed)

-- A frame that the daemon's own encoder made.
pub from_bytes-to_bytes :
    (to_vec : TerrainTilesHeader → List ℕ) (from_slice : List ℕ → Option TerrainTilesHeader)
    (t : TerrainTiles)
    → from_slice (to_vec t.header) ≡ some t.header
    → FitsFrame t
    → length (to_bytes to_vec t) ≤ max_frame_bytes
    → from_bytes from_slice (to_bytes to_vec t) ≡ ok t
unfolding to_bytes
from_bytes-to_bytes to_vec from_slice t read fits small =
    from_bytes-frame to_vec t [] from_slice read fits (inl refl) small
