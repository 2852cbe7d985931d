-- ===== src/Protocol/TileLaws.antt =====
-- What an accepted terrain frame holds, and which frames are accepted.
use hitl_daemon.Base.{
  ℕ, zero, suc, Bool, true, false, not, ◌+◌, ◌-◌, ◌*◌, ◌%◌, ◌<◌, ◌≡◌, refl, ap, subst, ◌∙◌, leb,
  ◌==◌, if◌then◌else◌, Option, none, some, List, [], ◌∷◌, map, length, drop, ok, u64_max, arith,
  eqb→eq,
}
use hitl_daemon.Protocol.Promise.{Holds, Holds-err, Holds-if, Holds-refused, Holds-bind, Holds-imp}
use hitl_daemon.Protocol.Bytes.{from_le_bytes}
use hitl_daemon.Protocol.Errors.{Reason, tile_size_overflows, payload_size_overflows}
use hitl_daemon.Protocol.Tiles.{
  TerrainTilesHeader, TerrainTiles, invalid, checked, chunks_exact, heights, bytes_of_tile,
  flags_match, body_start, tiles_from, parse_body, parse_header, from_bytes,
}
use hitl_daemon.Protocol.Chunks.{Sized, chunks_exact-Sized, length-drop}

checked-exact : (reason : Reason) (n : ℕ) → Holds (λ m. m ≡ n) (checked reason n)
unfolding checked Holds
checked-exact reason n =
    Holds-if (λ m. m ≡ n) (leb n u64_max) (ok n) (invalid reason) (λ _. refl) (λ _. tt)

bytes_of_tile-exact :
    (h : TerrainTilesHeader)
    → Holds (λ n. (n ≡ h.tile_size * h.tile_size * 4) × (0 < h.tile_size)) (bytes_of_tile h)
unfolding Holds
bytes_of_tile-exact h =
    Holds-if (λ n. (n ≡ h.tile_size * h.tile_size * 4) × (0 < h.tile_size)) (h.tile_size == 0) _ _
      (λ _. tt)
      (λ e.
        Holds-bind (λ m. m ≡ h.tile_size * h.tile_size) _
          (checked tile_size_overflows (h.tile_size * h.tile_size))
          (λ m. checked tile_size_overflows (m * 4))
          (checked-exact tile_size_overflows (h.tile_size * h.tile_size))
          (λ m q.
            Holds-imp (λ n. n ≡ m * 4) _ (checked tile_size_overflows (m * 4))
              (checked-exact tile_size_overflows (m * 4))
              (λ n w. (w ∙ ap (λ t. t * 4) q, ground (arith, e)))))

-- One tile for each coordinate, each of `tile_size` times `tile_size` heights.
pub record Whole (t : TerrainTiles) : Type 0 where
  pub count : length t.tiles ≡ length t.header.coords
  pub sizes : Sized (t.header.tile_size * t.header.tile_size) t.tiles

length-map : (f : List ℕ → List ℕ) (pieces : List (List ℕ)) → length (map f pieces) ≡ length pieces
length-map f [] = refl
length-map f (piece ∷ pieces) = ap suc (length-map f pieces)

length-from : (pieces : List (List ℕ)) → length (map from_le_bytes pieces) ≡ length pieces
length-from [] = refl
length-from (piece ∷ pieces) = ap suc (length-from pieces)

length-heights : (k : ℕ) (piece : List ℕ) → length piece ≡ k * 4 → length (heights piece) ≡ k
unfolding heights
length-heights k piece size =
    length-from _ ∙ (chunks_exact-Sized k (length piece) 4 piece (omega arith) size (omega arith)).0

-- A start that leaves exactly the expected bytes.
abbrev Starts : ℕ → ℕ → Option ℕ → Type 0
Starts len expected none = Unit {0}
Starts len expected (some start) = len - start ≡ expected

Sized-heights :
    (k : ℕ) (pieces : List (List ℕ)) → Sized (k * 4) pieces → Sized k (map heights pieces)
Sized-heights k [] sized = tt
Sized-heights k (piece ∷ pieces) (size, sized) =
    (length-heights k piece size, Sized-heights k pieces sized)

Starts-if :
    (len expected a b : ℕ) (t u : Bool)
    → (t ≡ true → len - a ≡ expected)
    → (u ≡ true → len - b ≡ expected)
    → Starts len expected (if t then some a else if u then some b else none)
Starts-if len expected a b true u ha hb = ha refl
Starts-if len expected a b false true ha hb = hb refl
Starts-if len expected a b false false ha hb = tt

body_start-Starts :
    (len header_end expected : ℕ) → Starts len expected (body_start len header_end expected)
unfolding body_start
body_start-Starts len header_end expected =
    let padded = header_end + (4 - header_end % 4) % 4 in
    Starts-if len expected header_end padded (len - header_end == expected)
      (len - padded == expected) (eqb→eq (len - header_end) expected)
      (eqb→eq (len - padded) expected)

pub square_pos : (k : ℕ) → 0 < k → 0 < k * k * 4
square_pos zero h = absurd (omega arith)
square_pos (suc k) h = omega arith

module _ (bytes : List ℕ) (header_end : ℕ) (h : TerrainTilesHeader) where
  tiles_from-Whole :
      (n rest : ℕ) (start : Option ℕ)
      → n ≡ h.tile_size * h.tile_size * 4
      → 0 < h.tile_size
      → Starts (length bytes) (length h.coords * n) start
      → Holds Whole (tiles_from bytes h n rest start)
  unfolding tiles_from Holds
  tiles_from-Whole n rest none size pos fits = tt
  tiles_from-Whole n rest (some start) size pos fits =
      let cut =
        chunks_exact-Sized (length h.coords) (length (drop start bytes)) n (drop start bytes)
          (omega (arith, size, square_pos h.tile_size pos)) (length-drop start bytes ∙ fits)
          (omega arith) in
      record {
        count = length-map _ _ ∙ cut.0;
        sizes = Sized-heights (h.tile_size * h.tile_size) _ (
            subst (λ m. Sized m (chunks_exact (length (drop start bytes)) n (drop start bytes)))
              size cut.1);
      }

  parse_body-Whole : Holds Whole (parse_body bytes header_end h)
  unfolding parse_body Holds
  parse_body-Whole = Holds-bind _ Whole (bytes_of_tile h) _ (bytes_of_tile-exact h) (λ n q.
      Holds-if Whole (not (flags_match h)) _ _ (λ _. tt)
        (λ _.
          Holds-bind (λ m. m ≡ length h.coords * n) Whole
            (checked payload_size_overflows (length h.coords * n)) _
            (checked-exact payload_size_overflows (length h.coords * n))
            (λ m e.
              tiles_from-Whole n (length bytes - header_end)
                (body_start (length bytes) header_end m) q.0 q.1
                (subst (λ x. Starts (length bytes) x (body_start (length bytes) header_end m)) e
                  (body_start-Starts (length bytes) header_end m)))))

module _ (from_slice : List ℕ → Option TerrainTilesHeader) (bytes : List ℕ) where
  parse_header-Whole :
      (header_end : ℕ) (found : Option TerrainTilesHeader)
      → Holds Whole (parse_header bytes header_end found)
  unfolding parse_header Holds
  parse_header-Whole header_end none = tt
  parse_header-Whole header_end (some h) = parse_body-Whole bytes header_end h

  from_bytes-Holds : Holds Whole (from_bytes from_slice bytes)
  unfolding from_bytes
  from_bytes-Holds = search (Holds-refused, Holds-err, parse_header-Whole)

  -- An accepted terrain frame has one tile for each coordinate, and each tile has as many heights
  -- as the declared tile size squared.
  pub from_bytes-Whole : (t : TerrainTiles) → from_bytes from_slice bytes ≡ ok t → Whole t
  unfolding Holds
  from_bytes-Whole t accepted = subst (Holds Whole) accepted from_bytes-Holds
