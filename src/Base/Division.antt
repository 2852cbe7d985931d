-- ===== src/Base/Division.antt =====
-- Counts of whole steps in a span.
use Prim.Native.Nat.{ℕ, zero, suc, ◌+◌, ◌*◌, ◌/◌, ◌≤◌, ◌<◌, max}
use native.Mathlib.Omega.{arith}

pub quotient_mul-le : (d s q : ℕ) → q ≤ d / s → q * s ≤ d
quotient_mul-le d s q h = grind arith

-- A count of at most `max (d / s) 1` steps of `s` covers at most `max d s`.
pub steps_mul-le : (d s n : ℕ) → n ≤ max (d / s) 1 → n * s ≤ max d s
steps_mul-le d s zero h = omega arith
steps_mul-le d s (suc zero) h = omega arith
steps_mul-le d s (suc (suc n)) h = omega (arith, quotient_mul-le d s (suc (suc n)) (omega arith))

pub quotient-le : (d s m : ℕ) → d < m * s → d / s ≤ m
quotient-le d s m h = grind arith

pub quotient_mono : (d s g : ℕ) → 1 ≤ s → d ≤ g → d / s ≤ g / s
quotient_mono d s g p h = grind arith

-- At least `d / s` steps of `s` leave less than one step of `d`.
pub quotient_rest : (d s n : ℕ) → 1 ≤ s → d / s ≤ n → d < n * s + s
quotient_rest d s n p h = grind arith
