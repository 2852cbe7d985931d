-- ===== src/Protocol/Chunks.antt =====
-- `chunks_exact` cuts a payload into pieces of one size, and gives back what was joined.
use hitl_daemon.Base.{
  ℕ, zero, suc, ◌-◌, ◌*◌, ◌≤◌, ◌<◌, ◌≡◌, refl, ap, subst, le→ltb, lt→ltb, List, [], ◌∷◌, ◌++◌, map,
  length, take, drop, length-append, arith,
}
use hitl_daemon.Protocol.Bytes.{from_le_bytes, le4}
use hitl_daemon.Protocol.Tiles.{chunks_exact, heights, tile_bytes, tiles_bytes}

module _ {ℓ} {A : Type ℓ} where
  -- Every piece has `n` elements.
  abbrev pub Sized : ℕ → List (List A) → Type 0
  Sized n [] = Unit {0}
  Sized n (piece ∷ pieces) = (length piece ≡ n) × Sized n pieces

  pub length-drop : (n : ℕ) (xs : List A) → length (drop n xs) ≡ length xs - n
  length-drop zero xs = omega arith
  length-drop (suc n) [] = omega arith
  length-drop (suc n) (x ∷ xs) = omega (arith, length-drop n xs)

  pub length-take : (n : ℕ) (xs : List A) → n ≤ length xs → length (take n xs) ≡ n
  length-take zero xs h = refl
  length-take (suc n) [] h = omega arith
  length-take (suc n) (x ∷ xs) h = omega (arith, length-take n xs (omega arith))

  pub take-append : (xs ys : List A) → take (length xs) (xs ++ ys) ≡ xs
  take-append [] ys = refl
  take-append (x ∷ xs) ys = ap (λ l. x ∷ l) (take-append xs ys)

  pub drop-append : (xs ys : List A) → drop (length xs) (xs ++ ys) ≡ ys
  drop-append [] ys = refl
  drop-append (x ∷ xs) ys = drop-append xs ys

  pub chunks_exact-next :
      (fuel n : ℕ) (xs : List A)
      → n ≤ length xs
      → chunks_exact (suc fuel) n xs ≡ take n xs ∷ chunks_exact fuel n (drop n xs)
  unfolding chunks_exact
  chunks_exact-next fuel n xs h = rw (le→ltb (length xs) n h, chunks_exact) refl

  pub chunks_exact-empty : (fuel n : ℕ) → 0 < n → chunks_exact {A = A} fuel n [] ≡ []
  unfolding chunks_exact
  chunks_exact-empty zero n h = refl
  chunks_exact-empty (suc fuel) n h = rw (lt→ltb 0 n h, chunks_exact) refl

  -- A payload of `k` pieces of `n` elements is cut into exactly those.
  pub chunks_exact-Sized :
      (k fuel n : ℕ) (xs : List A)
      → 0 < n
      → length xs ≡ k * n
      → length xs ≤ fuel
      → (length (chunks_exact fuel n xs) ≡ k) × Sized n (chunks_exact fuel n xs)
  chunks_exact-Sized zero fuel n [] pos whole enough = rw (chunks_exact-empty fuel n pos) (refl, tt)
  chunks_exact-Sized zero fuel n (x ∷ xs) pos whole enough = absurd (omega arith)
  chunks_exact-Sized (suc k) zero n xs pos whole enough = absurd (omega arith)
  chunks_exact-Sized (suc k) (suc fuel) n xs pos whole enough =
      let here : n ≤ length xs = omega arith in
      let rest =
        chunks_exact-Sized k fuel n (drop n xs) pos (omega (arith, length-drop n xs))
          (omega (arith, length-drop n xs)) in
      rw (chunks_exact-next fuel n xs here) (ap suc rest.0, (length-take n xs here, rest.1))

pub tile_bytes-length : (tile : List ℕ) → length (tile_bytes tile) ≡ length tile * 4
unfolding tile_bytes
tile_bytes-length [] = refl
tile_bytes-length (h ∷ tile) = omega (arith, tile_bytes-length tile)

module _ (n : ℕ) (pos : 0 < n) where
  -- Pieces of one size that were joined are cut apart again.
  pub chunks_exact-join :
      (fuel : ℕ) (tiles : List (List ℕ))
      → Sized n (map tile_bytes tiles)
      → length (tiles_bytes tiles) ≤ fuel
      → chunks_exact fuel n (tiles_bytes tiles) ≡ map tile_bytes tiles
  unfolding tiles_bytes
  chunks_exact-join fuel [] sized enough = chunks_exact-empty fuel n pos
  chunks_exact-join zero (tile ∷ tiles) sized enough =
      absurd (omega (arith, length-append (tile_bytes tile) (tiles_bytes tiles), sized.0))
  chunks_exact-join (suc fuel) (tile ∷ tiles) (size, sized) enough =
      let all = tile_bytes tile ++ tiles_bytes tiles in
      let len = length-append (tile_bytes tile) (tiles_bytes tiles) in
      let first : take n all ≡ tile_bytes tile =
        subst (λ m. take m all ≡ tile_bytes tile) size
          (take-append (tile_bytes tile) (tiles_bytes tiles)) in
      let rest : drop n all ≡ tiles_bytes tiles =
        subst (λ m. drop m all ≡ tiles_bytes tiles) size
          (drop-append (tile_bytes tile) (tiles_bytes tiles)) in
      rw (chunks_exact-next fuel n all (omega arith)) rw first rw rest
        (ap (λ l. tile_bytes tile ∷ l) (chunks_exact-join fuel tiles sized (omega arith)))

-- A tile whose heights are 32-bit patterns.
abbrev pub FitsAll : List ℕ → Type 0
FitsAll [] = Unit {0}
FitsAll (h ∷ tile) = (h < 4294967296) × FitsAll tile

heights-fuel :
    (fuel : ℕ) (tile : List ℕ)
    → FitsAll tile
    → length tile ≤ fuel
    → map from_le_bytes (chunks_exact fuel 4 (tile_bytes tile)) ≡ tile
unfolding tile_bytes
heights-fuel fuel [] fits enough = rw (chunks_exact-empty {A = ℕ} fuel 4 (omega arith)) refl
heights-fuel zero (h ∷ tile) fits enough = absurd (omega arith)
heights-fuel (suc fuel) (h ∷ tile) (fit, fits) enough =
    rw (chunks_exact-next fuel 4 (tile_bytes (h ∷ tile)) (omega arith))
      (λ i. le4 h fit i ∷ heights-fuel fuel tile fits (omega arith) i)

pub heights-tile_bytes : (tile : List ℕ) → FitsAll tile → heights (tile_bytes tile) ≡ tile
unfolding heights
heights-tile_bytes tile fits =
    heights-fuel (length (tile_bytes tile)) tile fits (omega (arith, tile_bytes-length tile))
