-- ===== src/Terrain/Evict.antt =====
-- Eviction keeps the bound and drops the tiles that are furthest from the vehicle.
use hitl_daemon.Base.{
  ℕ, zero, suc, Bool, true, false, not, ◌&&◌, ◌||◌, ◌+◌, ◌-◌, ◌*◌, ◌≤◌, ◌<◌, ◌≡◌, refl, ap, subst,
  ◌∙◌, leb, if◌then◌else◌, Option, none, some, List, [], ◌∷◌, length, take, arith, Bool-cases,
  leb→le, inl, inr,
}
use hitl_daemon.Terrain.Keyed.{
  contains_key, remove, Distinct, Every, contains_key-remove, Distinct-remove, length-remove,
  Every-remove,
}
use hitl_daemon.Terrain.Ranked.{
  sort_furthest_first, Measured, sort-Descending, sort-Measured, length-sort, ranks, Unique,
  ranks-take-drop, ranks-sort, sort-Unique, ranks-further,
}
use hitl_daemon.Terrain.Geo.{Real, TileCoord, same_coord, same_coord_sound, same_coord_refl}
use hitl_daemon.Terrain.Cache.{
  TileEntry, Tiles, square_of_difference, i64_half, distance, by_distance, remove_all,
  TerrainCacheInner, centre_of, evict_around, evict_at, evict_to_bound,
}

abbrev pub holds : TileCoord → Tiles → Bool
holds = contains_key same_coord

abbrev ranked : TileCoord → List (ℕ × TileCoord) → Bool
ranked = ranks same_coord

ranks-by_distance :
    (centre k : TileCoord) (tiles : Tiles) → ranked k (by_distance centre tiles) ≡ holds k tiles
unfolding by_distance contains_key ranks
ranks-by_distance centre k [] = refl
ranks-by_distance centre k ((c, v) ∷ tiles) =
    ap (λ b. same_coord k c || b) (ranks-by_distance centre k tiles)

length-by_distance :
    (centre : TileCoord) (tiles : Tiles) → length (by_distance centre tiles) ≡ length tiles
unfolding by_distance
length-by_distance centre [] = refl
length-by_distance centre ((c, v) ∷ tiles) = ap suc (length-by_distance centre tiles)

by_distance-Measured :
    (centre : TileCoord) (tiles : Tiles) → Measured (distance centre) (by_distance centre tiles)
unfolding by_distance Measured
by_distance-Measured centre [] = tt
by_distance-Measured centre ((c, v) ∷ tiles) = (refl, by_distance-Measured centre tiles)

by_distance-Unique :
    (centre : TileCoord) (tiles : Tiles)
    → Distinct same_coord tiles
    → Unique same_coord (by_distance centre tiles)
unfolding by_distance Unique Distinct
by_distance-Unique centre [] d = tt
by_distance-Unique centre ((c, v) ∷ tiles) d =
    (ranks-by_distance centre c tiles ∙ d.0, by_distance-Unique centre tiles d.1)

-- Every ranked key is resident, and none is ranked twice.
record Removable (l : List (ℕ × TileCoord)) (tiles : Tiles) : Type 0 where
  unique : Unique same_coord l
  resident : (k : TileCoord) → ranked k l ≡ true → holds k tiles ≡ true

remove_all-Distinct :
    (l : List (ℕ × TileCoord)) (tiles : Tiles)
    → Distinct same_coord tiles
    → Distinct same_coord (remove_all l tiles)
unfolding remove_all
remove_all-Distinct [] tiles d = d
remove_all-Distinct (p ∷ l) tiles d =
    remove_all-Distinct l (remove same_coord p.1 tiles)
      (Distinct-remove same_coord same_coord_sound same_coord_refl p.1 tiles d)

remove_all-Every :
    (P : TileCoord → TileEntry → Type 0) (l : List (ℕ × TileCoord)) (tiles : Tiles)
    → Every same_coord P tiles
    → Every same_coord P (remove_all l tiles)
unfolding remove_all
remove_all-Every P [] tiles d = d
remove_all-Every P (p ∷ l) tiles d =
    remove_all-Every P l (remove same_coord p.1 tiles) (Every-remove same_coord P p.1 tiles d)

holds-remove_all :
    (k : TileCoord) (l : List (ℕ × TileCoord)) (tiles : Tiles)
    → Distinct same_coord tiles
    → holds k (remove_all l tiles) ≡ (not (ranked k l) && holds k tiles)
unfolding remove_all ranks
holds-remove_all k [] tiles d = refl
holds-remove_all k (p ∷ l) tiles d = ground (
  arith,
  holds-remove_all k l (remove same_coord p.1 tiles)
      (Distinct-remove same_coord same_coord_sound same_coord_refl p.1 tiles d),
  contains_key-remove same_coord same_coord_sound same_coord_refl k p.1 tiles d,
)

ranked-same :
    (k c : TileCoord) (l : List (ℕ × TileCoord)) → same_coord k c ≡ true → ranked k l ≡ ranked c l
ranked-same k c l h = ap (λ a. ranked a l) (same_coord_sound k c h)

remove-Removable :
    (p : ℕ × TileCoord) (l : List (ℕ × TileCoord)) (tiles : Tiles)
    → Distinct same_coord tiles
    → Removable (p ∷ l) tiles
    → Removable l (remove same_coord p.1 tiles)
unfolding Unique ranks
remove-Removable p l tiles d r = record {
  unique = r.unique.1;
  resident = λ k h. ground (
    arith,
    r.unique,
    r.resident k,
    contains_key-remove same_coord same_coord_sound same_coord_refl k p.1 tiles d,
    h,
    ranked-same k p.1 l,
  );
}

length-remove_all :
    (l : List (ℕ × TileCoord)) (tiles : Tiles)
    → Distinct same_coord tiles
    → Removable l tiles
    → length (remove_all l tiles) + length l ≡ length tiles
unfolding remove_all ranks
length-remove_all [] tiles d r = omega arith
length-remove_all (p ∷ l) tiles d r = omega (
  arith,
  length-remove_all l (remove same_coord p.1 tiles)
      (Distinct-remove same_coord same_coord_sound same_coord_refl p.1 tiles d)
      (remove-Removable p l tiles d r),
  length-remove same_coord same_coord_sound same_coord_refl p.1 tiles
      (r.resident p.1 (ground (arith, same_coord_refl p.1))),
)

Unique-take :
    (n : ℕ) (l : List (ℕ × TileCoord)) → Unique same_coord l → Unique same_coord (take n l)
unfolding Unique ranks
Unique-take zero l u = tt
Unique-take (suc n) [] u = tt
Unique-take (suc n) (p ∷ l) u =
    (ground (arith, ranks-take-drop same_coord p.1 n l, u), Unique-take n l u.1)

module _ (centre : TileCoord) (tiles : Tiles) (d : Distinct same_coord tiles) where
  abbrev sorted : List (ℕ × TileCoord)
  sorted = sort_furthest_first (by_distance centre tiles)

  ranked-sorted : (k : TileCoord) → ranked k sorted ≡ holds k tiles
  ranked-sorted k =
      ranks-sort same_coord k (by_distance centre tiles) ∙ ranks-by_distance centre k tiles

  take-Removable : (n : ℕ) → Removable (take n sorted) tiles
  take-Removable n = record {
    unique = Unique-take n sorted (
        sort-Unique same_coord same_coord_sound (by_distance centre tiles)
          (by_distance-Unique centre tiles d));
    resident = λ k h. ground (arith, h, ranked-sorted k, ranks-take-drop same_coord k n sorted);
  }

  -- A tile that stays is no further than one that goes.
  remove_all-nearest :
      (n : ℕ) (kept gone : TileCoord)
      → holds kept (remove_all (take n sorted) tiles) ≡ true
      → holds gone tiles ≡ true
      → holds gone (remove_all (take n sorted) tiles) ≡ false
      → distance centre kept ≤ distance centre gone
  remove_all-nearest n kept gone stays was goes =
      ranks-further same_coord same_coord_sound (distance centre) n gone kept sorted
        (sort-Descending (by_distance centre tiles))
        (sort-Measured (distance centre) (by_distance centre tiles)
          (by_distance-Measured centre tiles))
        (ground (arith, holds-remove_all gone (take n sorted) tiles d, was, goes))
        (ground (
          arith,
          holds-remove_all kept (take n sorted) tiles d,
          stays,
          ranked-sorted kept,
          ranks-take-drop same_coord kept n sorted,
        ))

length-take : (n : ℕ) (l : List (ℕ × TileCoord)) → n ≤ length l → length (take n l) ≡ n
length-take zero l h = refl
length-take (suc n) [] h = absurd (omega arith)
length-take (suc n) (p ∷ l) h = ap suc (length-take n l (omega arith))

length-excess :
    (centre : TileCoord) (tiles : Tiles) (n : ℕ)
    → Distinct same_coord tiles
    → n ≤ length tiles
    → length (remove_all (take n (sort_furthest_first (by_distance centre tiles))) tiles) + n
      ≡ length tiles
length-excess centre tiles n d h =
    let l = by_distance centre tiles in
    omega (
      arith,
      length-remove_all (take n (sort_furthest_first l)) tiles d (take-Removable centre tiles d n),
      length-take n (sort_furthest_first l)
          (omega (arith, length-sort l, length-by_distance centre tiles)),
    )

-- The coordinates are below 2 ^ 31.
abbrev IsNear : TileCoord → Type 0
IsNear c = (c.x < 2147483648) × (c.y < 2147483648)

-- The sum of the squares of the differences, of any size.
abbrev pub squares_from : TileCoord → TileCoord → ℕ
squares_from centre c = square_of_difference c.x centre.x + square_of_difference c.y centre.y

square-bound : (d b : ℕ) → d < b → d * d < b * b
square-bound d b h = grind arith

square_of_difference-bound :
    (a b : ℕ) → a < 2147483648 → b < 2147483648 → square_of_difference a b < 4611686018427387904
square_of_difference-bound a b p q = square-bound (a - b + (b - a)) 2147483648 (omega arith)

-- Between tiles that are near the sum does not wrap.
distance-exact :
    (centre c : TileCoord)
    → IsNear centre
    → IsNear c
    → distance centre c ≡ squares_from centre c + i64_half
unfolding distance
distance-exact centre c (p, q) (u, v) = omega (
  arith,
  square_of_difference-bound c.x centre.x u p,
  square_of_difference-bound c.y centre.y v q,
)

module _ (r : Real) (inner : TerrainCacheInner r.F) (d : Distinct same_coord inner.tiles) where
  -- What an eviction leaves of the tiles.
  pub record Evicted (max_resident : ℕ) (after : TerrainCacheInner r.F × ℕ) : Type 0 where
    pub distinct : Distinct same_coord after.0.tiles
    pub bounded : length after.0.tiles ≤ max_resident
    pub counted : length after.0.tiles + after.1 ≡ length inner.tiles
    pub zoom : after.0.zoom ≡ inner.zoom

  evict_around-Evicted :
      (centre : TileCoord) (max_resident : ℕ)
      → Evicted max_resident (evict_around r centre max_resident inner)
  unfolding evict_around
  evict_around-Evicted centre max_resident =
      let n = length inner.tiles - max_resident in
      let kept = length-excess centre inner.tiles n d (omega arith) in
      record {
        distinct = remove_all-Distinct _ inner.tiles d;
        bounded = omega (arith, kept);
        counted = kept;
        zoom = refl;
      }

  unevicted :
      (max_resident : ℕ) → length inner.tiles ≤ max_resident → Evicted max_resident (inner, 0)
  unevicted max_resident h = record {
    distinct = d;
    bounded = h;
    counted = omega arith;
    zoom = refl;
  }

  evict_at-Evicted :
      (max_resident : ℕ) (north east : r.F) (zoom : Option ℕ)
      → (zoom ≡ none → length inner.tiles ≡ 0)
      → Evicted max_resident (evict_at r zoom inner max_resident north east)
  evict_at-Evicted max_resident north east none empty =
      unevicted max_resident (omega (arith, empty refl))
  evict_at-Evicted max_resident north east (some z) empty =
      evict_around-Evicted (centre_of r inner north east z) max_resident

  pub evict_to_bound-Evicted :
      (max_resident : ℕ) (north east : r.F)
      → (inner.zoom ≡ none → length inner.tiles ≡ 0)
      → Evicted max_resident (evict_to_bound r inner max_resident north east)
  unfolding evict_to_bound
  evict_to_bound-Evicted max_resident north east empty =
      elim (Bool-cases (leb (length inner.tiles) max_resident)) [
        | inl e ↦
            rw (e, evict_to_bound)
              (unevicted max_resident (leb→le (length inner.tiles) max_resident e))
        | inr e ↦ rw (e, evict_to_bound) (evict_at-Evicted max_resident north east inner.zoom empty)
      ]

  evict_at-Every :
      (P : TileCoord → TileEntry → Type 0) (max_resident : ℕ) (north east : r.F) (zoom : Option ℕ)
      → Every same_coord P inner.tiles
      → Every same_coord P (evict_at r zoom inner max_resident north east).0.tiles
  unfolding evict_around
  evict_at-Every P max_resident north east none all = all
  evict_at-Every P max_resident north east (some z) all = remove_all-Every P _ inner.tiles all

  pub evict_to_bound-Every :
      (P : TileCoord → TileEntry → Type 0) (max_resident : ℕ) (north east : r.F)
      → Every same_coord P inner.tiles
      → Every same_coord P (evict_to_bound r inner max_resident north east).0.tiles
  unfolding evict_to_bound
  evict_to_bound-Every P max_resident north east all =
      elim (Bool-cases (leb (length inner.tiles) max_resident)) [
        | inl e ↦ rw (e, evict_to_bound) all
        | inr e ↦ rw (e, evict_to_bound) (evict_at-Every P max_resident north east inner.zoom all)
      ]

  evict_at-nearest :
      (full : Bool) (max_resident : ℕ) (north east : r.F) (zoom : Option ℕ) (z : ℕ)
      (kept gone : TileCoord)
      → zoom ≡ some z
      → let after =
          (if full then (inner, 0) else evict_at r zoom inner max_resident north east).0.tiles in
        holds kept after ≡ true
        → holds gone inner.tiles ≡ true
        → holds gone after ≡ false
        → distance (centre_of r inner north east z) kept
          ≤ distance (centre_of r inner north east z) gone
  unfolding evict_around
  evict_at-nearest true max_resident north east zoom z kept gone at stays was goes =
      absurd (cc (was, goes))
  evict_at-nearest false max_resident north east none z kept gone at stays was goes = absurd (cc at)
  evict_at-nearest false max_resident north east (some y) z kept gone at stays was goes =
      let q : y ≡ z = cc at in
      subst
        (λ w.
          distance (centre_of r inner north east w) kept
          ≤ distance (centre_of r inner north east w) gone)
        q
        (remove_all-nearest (centre_of r inner north east y) inner.tiles d
          (length inner.tiles - max_resident) kept gone stays was goes)

  -- In a cache without duplicates, where the vehicle's tile and both tiles have coordinates below
  -- 2 ^ 31, a tile that stays resident through an eviction is no further from the vehicle's tile
  -- than one that is dropped, by the sum of the squares without any wrapping.
  pub evict_to_bound-nearest :
      (max_resident : ℕ) (north east : r.F) (z : ℕ) (kept gone : TileCoord)
      → inner.zoom ≡ some z
      → IsNear (centre_of r inner north east z)
      → IsNear kept
      → IsNear gone
      → let after = (evict_to_bound r inner max_resident north east).0.tiles in
        holds kept after ≡ true
        → holds gone inner.tiles ≡ true
        → holds gone after ≡ false
        → squares_from (centre_of r inner north east z) kept
          ≤ squares_from (centre_of r inner north east z) gone
  unfolding evict_to_bound
  evict_to_bound-nearest max_resident north east z kept gone at near near_kept near_gone s w g =
      let centre = centre_of r inner north east z in
      omega (
        arith,
        evict_at-nearest (leb (length inner.tiles) max_resident) max_resident north east inner.zoom
            z kept gone at s w g,
        distance-exact centre kept near near_kept,
        distance-exact centre gone near near_gone,
      )
