-- ===== src/Wake/Histogram.antt =====
-- The histogram against the samples that it was given.
use hitl_daemon.Base.{
  ℕ, zero, suc, ◌+◌, ◌-◌, ◌*◌, ◌/◌, ◌≤◌, ◌<◌, ◌≡◌, ◌⊎◌, inl, inr, refl, subst, sym, ap, min, max,
  false, ltb, leb, ◌==◌, if◌then◌else◌, List, [], ◌∷◌, arith, tests, length, replicate, dec_le,
  Bool-cases,
}
use hitl_daemon.Wake.{
  WakeLateHistogram, bump, record_late, new, scan, bucket_edge_us, quantile_us, bucket_count,
  bucket_us, clamp,
}

-- The number of samples below a bound.
abbrev pub count_below : ℕ → List ℕ → ℕ
count_below x [] = 0
count_below x (s ∷ ss) = let rest = count_below x ss in if ltb s x then suc rest else rest

-- The sum of the first `k` buckets.
abbrev pub prefix : ℕ → List ℕ → ℕ
prefix zero bs = 0
prefix (suc k) [] = 0
prefix (suc k) (b ∷ bs) = b + prefix k bs

length-bump : (bs : List ℕ) (i : ℕ) → length (bump bs i) ≡ length bs
unfolding bump
length-bump [] i = refl
length-bump (b ∷ bs) zero = refl
length-bump (b ∷ bs) (suc i) = omega (arith, length-bump bs i)

prefix-bump :
    (k : ℕ) (bs : List ℕ) (i : ℕ)
    → i < length bs
    → prefix k (bump bs i) ≡ prefix k bs + (if ltb i k then 1 else 0)
unfolding bump
prefix-bump zero bs i h = ground arith
prefix-bump (suc k) [] i h = absurd (omega arith)
prefix-bump (suc k) (b ∷ bs) zero h = ground arith
prefix-bump (suc k) (b ∷ bs) (suc i) h = ground (arith, prefix-bump k bs i)

-- A histogram that holds exactly the samples.
pub record Holds (h : WakeLateHistogram) (samples : List ℕ) : Type 0 where
  pub sized : length h.buckets ≡ bucket_count
  pub summed : (k : ℕ) → k ≤ bucket_count → prefix k h.buckets ≡ count_below (k * bucket_us) samples
  pub counted : h.count ≡ length samples
  pub over : h.overflow + count_below (bucket_count * bucket_us) samples ≡ length samples
  pub topped : count_below (h.max_seen + 1) samples ≡ length samples

count_below_mono : (x y : ℕ) (ss : List ℕ) → x ≤ y → count_below x ss ≤ count_below y ss
count_below_mono x y [] h = omega arith
count_below_mono x y (s ∷ ss) h = ground (arith, count_below_mono x y ss)

count_below-le : (x : ℕ) (ss : List ℕ) → count_below x ss ≤ length ss
count_below-le x [] = omega arith
count_below-le x (s ∷ ss) = ground (arith, count_below-le x ss)

prefix-zeros : (k n : ℕ) → prefix k (replicate n 0) ≡ 0
prefix-zeros zero n = refl
prefix-zeros (suc k) zero = refl
prefix-zeros (suc k) (suc n) = omega (arith, prefix-zeros k n)

pub new-Holds : Holds new []
unfolding new
new-Holds = record {
  sized = refl;
  summed = λ k h. prefix-zeros k 64;
  counted = refl;
  over = refl;
  topped = refl;
}

-- A sample lies in the buckets below `k` exactly if it is below their edge.
bucket_test : (s k : ℕ) → ltb (s / 100) k ≡ ltb s (k * 100)
bucket_test s k = ground arith

record_late-summed :
    (h : WakeLateHistogram) (s k : ℕ) (ss : List ℕ)
    → Holds h ss
    → k ≤ bucket_count
    → prefix k (record_late h s).buckets ≡ count_below (k * bucket_us) (s ∷ ss)
unfolding record_late
record_late-summed h s k ss v p =
    ground (arith, prefix-bump k h.buckets (s / 100), bucket_test s k, v.summed k p, v.sized)

pub record_late-Holds :
    (h : WakeLateHistogram) (s : ℕ) (ss : List ℕ) → Holds h ss → Holds (record_late h s) (s ∷ ss)
unfolding record_late
record_late-Holds h s ss v = record {
  sized = ground (arith, length-bump h.buckets (s / 100), v.sized);
  summed = λ k p. record_late-summed h s k ss v p;
  counted = omega (arith, v.counted);
  over = ground (arith, v.over, v.sized);
  topped = ground (
    arith,
    v.topped,
    count_below_mono (h.max_seen + 1) (max h.max_seen s + 1) ss (omega arith),
    count_below-le (max h.max_seen s + 1) ss,
  );
}

pub record_all : WakeLateHistogram → List ℕ → WakeLateHistogram
record_all h [] = h
record_all h (s ∷ ss) = record_late (record_all h ss) s

-- Where the scan of the buckets ends: at the first edge with `target` samples below it, or past the
-- last bucket.
abbrev pub Edge : (ℕ → ℕ) → ℕ → ℕ → ℕ → Type 0
Edge below start target r =
    ((k : ℕ) × (r ≡ (k + 1) * bucket_us)
      × (start ≤ k)
      × (k < bucket_count)
      × (below k < target)
      × (target ≤ below (k + 1)))
    ⊎ ((r ≡ bucket_count * bucket_us) × (below bucket_count < target))

Edge-later :
    (below : ℕ → ℕ) (index target r : ℕ)
    → Edge below (index + 1) target r
    → Edge below index target r
Edge-later below index target r (inl (k, e, a, b, c, d)) = inl (k, e, omega arith, b, c, d)
Edge-later below index target r (inr e) = inr e

scan-Edge :
    (below : ℕ → ℕ) (bs : List ℕ) (index seen target : ℕ)
    → index + length bs ≡ bucket_count
    → ((k : ℕ) → k ≤ length bs → seen + prefix k bs ≡ below (index + k))
    → below index < target
    → Edge below index target (scan index seen target bs)
unfolding scan
scan-Edge below [] index seen target n f p =
    let e : index ≡ bucket_count = omega arith in inr (refl, subst (λ k. below k < target) e p)
scan-Edge below (b ∷ bs) index seen target n f p =
    let here = f 1 (omega arith) in
    let shift = λ (k : ℕ). (let e : index + suc k ≡ index + 1 + k = omega arith in ap below e) in
    elim (Bool-cases (leb target (seen + b))) [
      | inl e ↦ rw e (inl (index, refl, omega arith, omega arith, p, omega (tests, here)))
      | inr e ↦ rw e (
          Edge-later below index target _ (
            scan-Edge below bs (index + 1) (seen + b) target (omega arith)
              (λ k h. omega (arith, f (suc k) (omega arith), shift k)) (ground (arith, here))))
    ]

record_all-Holds : (ss : List ℕ) → Holds (record_all new ss) ss
unfolding record_all
record_all-Holds [] = new-Holds
record_all-Holds (s ∷ ss) = record_late-Holds (record_all new ss) s ss (record_all-Holds ss)

-- An edge, capped by the largest sample, against the samples.
Edge-capped :
    (ss : List ℕ) (target r top : ℕ)
    → Edge (λ k. count_below (k * bucket_us) ss) 0 target r
    → target ≤ length ss
    → count_below (top + 1) ss ≡ length ss
    → let q = min r top in
      (count_below (q - bucket_us) ss < target)
      × ((target ≤ count_below (q + 1) ss)
          ⊎ ((q ≡ bucket_count * bucket_us) × (count_below (bucket_count * bucket_us) ss < target)))
Edge-capped ss target r top (inl (k, e, a, b, c, d)) t m = (
  omega (arith, c, count_below_mono (min r top - bucket_us) (k * bucket_us) ss (omega arith)),
  inl (elim (dec_le r top) [
    | yes p ↦
        omega (arith, d, count_below_mono ((k + 1) * bucket_us) (min r top + 1) ss (omega arith))
    | no p ↦ omega (arith, m, count_below_mono (top + 1) (min r top + 1) ss (omega arith))
  ]),
)
Edge-capped ss target r top (inr (e, f)) t m =
    let floor = count_below_mono (min r top - bucket_us) 6400 ss (omega arith) in
    (
      omega (arith, f, floor),
      inr (
        elim (dec_le 6400 top) [
          | yes p ↦ omega arith
          | no p ↦ absurd (omega (arith, f, m, t, count_below_mono (top + 1) 6400 ss (omega arith)))
        ],
        f,
      ),
    )

clamp_bounds : (x n : ℕ) → 1 ≤ n → (1 ≤ clamp x 1 n) × (clamp x 1 n ≤ n)
unfolding clamp
clamp_bounds x n h = ground arith

-- What a quantile says of the samples behind it.
abbrev pub Sound : (ℕ → ℕ) → WakeLateHistogram → List ℕ → Type 0
Sound rank h samples =
    let target = clamp (rank h.count) 1 h.count in
    let q = quantile_us rank h in
    (q ≤ h.max_seen)
    × (count_below (h.max_seen + 1) samples ≡ length samples)
    × (count_below (q - bucket_us) samples < target)
    × ((target ≤ count_below (q + 1) samples)
        ⊎ ((q ≡ bucket_count * bucket_us)
            × (count_below (bucket_count * bucket_us) samples < target)))

Holds-Sound :
    (rank : ℕ → ℕ) (h : WakeLateHistogram) (samples : List ℕ)
    → Holds h samples
    → 1 ≤ length samples
    → Sound rank h samples
unfolding quantile_us bucket_edge_us
Holds-Sound rank h samples v p =
    let target = clamp (rank h.count) 1 h.count in
    let t = clamp_bounds (rank h.count) h.count (omega (arith, v.counted)) in
    let nonzero : h.count == 0 ≡ false = ground (arith, v.counted) in
    let start : count_below 0 samples ≡ 0 = sym (v.summed 0 (omega arith)) in
    let from_start = λ (k : ℕ).
      (let e : 0 + k ≡ k = omega arith in ap (λ (j : ℕ). count_below (j * bucket_us) samples) e) in
    let edge =
      scan-Edge (λ k. count_below (k * bucket_us) samples) h.buckets 0 0 target
        (omega (arith, v.sized))
        (λ k q. omega (arith, v.summed k (omega (arith, v.sized)), from_start k))
        (omega (arith, start, t)) in
    let c =
      Edge-capped samples target (scan 0 0 target h.buckets) h.max_seen edge
        (omega (arith, t, v.counted)) v.topped in
    rw nonzero (omega arith, v.topped, c.0, c.1)

-- Over any samples, with the rank clamped to the number of samples, the quantile is at most the
-- largest sample, fewer samples than the rank lie more than a bucket below it, and at least as
-- many as the rank lie at or below it, unless it is the overflow floor with fewer than that below
-- the floor.
pub quantile_us-Sound :
    (rank : ℕ → ℕ) (s : ℕ) (ss : List ℕ) → Sound rank (record_all new (s ∷ ss)) (s ∷ ss)
quantile_us-Sound rank s ss =
    Holds-Sound rank (record_all new (s ∷ ss)) (s ∷ ss) (record_all-Holds (s ∷ ss)) (omega arith)
