-- ===== src/Verdict/Tests.antt =====
-- Fixed-point arithmetic in place of the host's, and the theorems at it.
use hitl_daemon.Base.{ℕ, ◌*◌, ◌/◌, ◌^◌, ◌≡◌, refl, true, ltb, leb, arith}
use hitl_daemon.Base.Floats.{F64}
use hitl_daemon.Health.{Health}
use hitl_daemon.Verdict.{timebase_health}

pub at_least_trans : (a b c : ℕ) → leb b a ≡ true → leb c b ≡ true → leb c a ≡ true
at_least_trans a b c p q = ground arith

-- Millionths.
abbrev pub fixed_point : F64
fixed_point = record {
  F = ℕ;
  of_nat = λ n. n * 1000000;
  decimal = λ m d. m * 1000000 / 10 ^ d;
  nan = 0;
  div = λ a b. a * 1000000 / b;
  ge = λ a b. leb b a;
  gt = λ a b. ltb b a;
  is_finite = λ a. true;
  ge_trans = at_least_trans;
}

grades :
    (timebase_health fixed_point 995000 0 ≡ Health.ok)
    × (timebase_health fixed_point 950000 0 ≡ Health.degraded)
    × (timebase_health fixed_point 950000 1 ≡ Health.faulted)
unfolding timebase_health
grades = (refl, refl, refl)
