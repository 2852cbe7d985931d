-- ===== src/Terrain/Geo.antt =====
-- Tile coordinates and the geography of crates/terrain/src/lib.rs, over the operations of `f64`,
-- which are given. A height is the bit pattern of an `f32`, with its given tests.
use hitl_daemon.Base.{ℕ, Bool, true, ◌&&◌, ◌^◌, min, ◌==◌, if◌then◌else◌, ◌≡◌, arith}

pub record Real : Type 1 where
  pub F : Type 0
  pub of_nat : ℕ → F
  -- `decimal m e` is the literal m / 10 ^ e.
  pub decimal : ℕ → ℕ → F
  pub pi : F
  pub add : F → F → F
  pub sub : F → F → F
  pub mul : F → F → F
  pub div : F → F → F
  pub cos : F → F
  pub tan : F → F
  pub sinh : F → F
  pub atan : F → F
  pub ln : F → F
  pub sqrt : F → F
  pub abs : F → F
  pub to_radians : F → F
  pub to_degrees : F → F
  -- `floor() as u32`.
  pub floor_u32 : F → ℕ
  pub gt : F → F → Bool
  pub le : F → F → Bool
  pub f32_is_finite : ℕ → Bool
  pub f32_lt : ℕ → ℕ → Bool

pub record TileCoord : Type 0 where
  pub x : ℕ
  pub y : ℕ
  pub z : ℕ

-- `==` of coordinates.
unfoldable pub same_coord : TileCoord → TileCoord → Bool
same_coord a b = a.x == b.x && (a.y == b.y && a.z == b.z)

pub same_coord_sound : (a b : TileCoord) → same_coord a b ≡ true → a ≡ b
unfolding same_coord
same_coord_sound a b h =
    let p : a.x ≡ b.x = ground arith in
    let q : a.y ≡ b.y = ground arith in
    let s : a.z ≡ b.z = ground arith in λ i. record { x = p i; y = q i; z = s i }

pub same_coord_refl : (a : TileCoord) → same_coord a a ≡ true
unfolding same_coord
same_coord_refl a = ground arith

abbrev pub tile_size : ℕ
tile_size = 256

-- `MIN_ELEVATION_M` and `MAX_ELEVATION_M`, -12000 and 12000.
abbrev pub min_elevation_m : ℕ
min_elevation_m = 3325788160

abbrev pub max_elevation_m : ℕ
max_elevation_m = 1178304512

abbrev pub max_zoom : ℕ
max_zoom = 24

module _ (r : Real) where
  open r use {
    F, of_nat, decimal, pi, add, sub, mul, div, cos, tan, sinh, atan, ln, sqrt, abs, to_radians,
    to_degrees, floor_u32, gt,
  }

  abbrev pub r_earth : F
  r_earth = of_nat 6378137

  abbrev pub max_origin_distance_m : F
  max_origin_distance_m = of_nat 200000

  abbrev pub same_origin_meters : F
  same_origin_meters = of_nat 1

  unfoldable pub from_lon_lat : F → F → ℕ → TileCoord
  from_lon_lat lon lat z =
      let n = of_nat (2 ^ min z max_zoom) in
      let lat_rad = to_radians lat in
      record {
        x = floor_u32 (mul (div (add lon (of_nat 180)) (of_nat 360)) n);
        y = floor_u32 (
            mul
              (div (sub (of_nat 1) (div (ln (add (tan lat_rad) (div (of_nat 1) (cos lat_rad)))) pi))
                (of_nat 2))
              n);
        z = z;
      }

  -- The longitude and the latitude of a tile's north-west corner.
  unfoldable pub tile_to_lon_lat : ℕ → ℕ → ℕ → F × F
  tile_to_lon_lat x y z =
      let n = of_nat (2 ^ min z max_zoom) in
      let lon = sub (mul (div (of_nat x) n) (of_nat 360)) (of_nat 180) in
      let lat_rad = atan (sinh (mul pi (sub (of_nat 1) (div (mul (of_nat 2) (of_nat y)) n)))) in
      (lon, to_degrees lat_rad)

  unfoldable pub distance_m : F → F → F → F → F
  distance_m lat_a lon_a lat_b lon_b =
      let dn = mul (to_radians (sub lat_b lat_a)) r_earth in
      let de = mul (mul (to_radians (sub lon_b lon_a)) r_earth) (cos (to_radians lat_a)) in
      sqrt (add (mul dn dn) (mul de de))

  unfoldable pub ned_to_lat_lon : F → F → F → F → F × F
  ned_to_lat_lon north east origin_lat origin_lon =
      let degrees = div (of_nat 180) pi in
      let lat = add origin_lat (mul (div north r_earth) degrees) in
      let cos_lat = cos (to_radians origin_lat) in
      let cos_lat_safe = if gt (decimal 1 10) (abs cos_lat) then decimal 1 10 else cos_lat in
      (lat, add origin_lon (mul (div east (mul r_earth cos_lat_safe)) degrees))
