-- ===== src/Protocol/Tiles.antt =====
-- `TerrainTiles` of crates/websocket/src/protocol.rs: decoded elevation tiles from the browser. The
-- header is JSON, whose encoder and decoder are given. A height is the bit pattern of an `f32`.
use hitl_daemon.Base.{
  ℕ, zero, suc, Bool, true, false, not, ◌+◌, ◌-◌, ◌*◌, ◌%◌, ltb, leb, ◌==◌, if◌then◌else◌, Option,
  none, some, List, [], ◌∷◌, ◌++◌, map, length, take, drop, Result, ok, err, ◌>>=◌, u64_max,
}
use hitl_daemon.Protocol.Bytes.{to_le_bytes, from_le_bytes, slice, byte_at}
use hitl_daemon.Protocol.Errors.{
  arm, Reason, invalid_json, frame_exceeds_limit, tile_size_zero, tile_size_overflows,
  approximate_flags, payload_size_overflows, payload_bytes, ProtocolError, message_too_short,
  unknown_message_type, invalid_payload,
}

pub record FlightLocation : Type 0 where
  pub lat : ℕ
  pub lon : ℕ

pub record WireTileCoord : Type 0 where
  pub x : ℕ
  pub y : ℕ
  pub z : ℕ

pub record TerrainTilesHeader : Type 0 where
  pub origin : FlightLocation
  pub tile_size : ℕ
  pub coords : List WireTileCoord
  pub approximate : List Bool

pub record TerrainTiles : Type 0 where
  pub header : TerrainTilesHeader
  pub tiles : List (List ℕ)

abbrev pub msg_type_terrain_tiles : ℕ
msg_type_terrain_tiles = 24

abbrev pub max_frame_bytes : ℕ
max_frame_bytes = 16777216

abbrev pub invalid {ℓ} : {A : Type ℓ} → Reason → Result ProtocolError A
invalid reason = err (invalid_payload arm reason)

-- `checked_mul` and `checked_add` of a 64-bit `usize`, with the error of the call.
unfoldable pub checked : Reason → ℕ → Result ProtocolError ℕ
checked reason n = if leb n u64_max then ok n else invalid reason

-- `chunks_exact(n)`, where a list of bytes has no more chunks than bytes, for `n` not 0.
unfoldable pub chunks_exact {ℓ} : {A : Type ℓ} → ℕ → ℕ → List A → List (List A)
chunks_exact zero n bytes = []
chunks_exact (suc fuel) n bytes = elim (ltb (length bytes) n) [
  | true ↦ []
  | false ↦ take n bytes ∷ chunks_exact fuel n (drop n bytes)
]

unfoldable pub heights : List ℕ → List ℕ
heights chunk = map from_le_bytes (chunks_exact (length chunk) 4 chunk)

abbrev pub bytes_of_tile : TerrainTilesHeader → Result ProtocolError ℕ
bytes_of_tile header =
    if header.tile_size == 0
    then invalid tile_size_zero
    else checked tile_size_overflows (header.tile_size * header.tile_size) >>= λ samples.
        checked tile_size_overflows (samples * 4)

unfoldable pub flags_match : TerrainTilesHeader → Bool
flags_match header =
    if length header.approximate == 0
    then true
    else length header.approximate == length header.coords

-- Where the payload starts: right after the header, or at the next multiple of four.
unfoldable pub body_start : ℕ → ℕ → ℕ → Option ℕ
body_start len header_end expected =
    let padded_start = header_end + (4 - header_end % 4) % 4 in
    if len - header_end == expected
    then some header_end
    else if len - padded_start == expected
    then some padded_start
    else none

unfoldable pub tiles_from :
    List ℕ → TerrainTilesHeader → ℕ → ℕ → Option ℕ → Result ProtocolError TerrainTiles
tiles_from bytes header bytes_per_tile rest none =
    invalid (payload_bytes rest (length header.coords))
tiles_from bytes header bytes_per_tile rest (some start) =
    let body = drop start bytes in
    ok record {
      header = header;
      tiles = map heights (chunks_exact (length body) bytes_per_tile body);
    }

-- The part of the decoder after the header has been read.
unfoldable pub parse_body : List ℕ → ℕ → TerrainTilesHeader → Result ProtocolError TerrainTiles
parse_body bytes header_end header = bytes_of_tile header >>= λ bytes_per_tile.
    if not (flags_match header)
    then invalid (approximate_flags (length header.approximate) (length header.coords))
    else checked payload_size_overflows (length header.coords * bytes_per_tile) >>= λ expected.
        tiles_from bytes header bytes_per_tile (length bytes - header_end)
          (body_start (length bytes) header_end expected)

unfoldable pub parse_header :
    List ℕ → ℕ → Option TerrainTilesHeader → Result ProtocolError TerrainTiles
parse_header bytes header_end none = invalid invalid_json
parse_header bytes header_end (some header) = parse_body bytes header_end header

unfoldable pub from_bytes :
    (List ℕ → Option TerrainTilesHeader) → List ℕ → Result ProtocolError TerrainTiles
from_bytes from_slice bytes =
    if ltb max_frame_bytes (length bytes)
    then invalid (frame_exceeds_limit (length bytes))
    else if ltb (length bytes) 5
    then err (message_too_short 5 (length bytes))
    else if not (byte_at 0 bytes == msg_type_terrain_tiles)
    then err (unknown_message_type (byte_at 0 bytes))
    else let header_len = from_le_bytes (slice 1 4 bytes) in
      let header_end = 5 + header_len in
      if ltb (length bytes) header_end
      then err (message_too_short header_end (length bytes))
      else parse_header bytes header_end (from_slice (slice 5 header_len bytes))

unfoldable pub tile_bytes : List ℕ → List ℕ
tile_bytes [] = []
tile_bytes (h ∷ tile) = to_le_bytes 4 h ++ tile_bytes tile

unfoldable pub tiles_bytes : List (List ℕ) → List ℕ
tiles_bytes [] = []
tiles_bytes (tile ∷ tiles) = tile_bytes tile ++ tiles_bytes tiles

unfoldable pub to_bytes : (TerrainTilesHeader → List ℕ) → TerrainTiles → List ℕ
to_bytes to_vec t =
    let header = to_vec t.header in
    msg_type_terrain_tiles
    ∷ (to_le_bytes 4 (length header % 4294967296) ++ (header ++ tiles_bytes t.tiles))
