-- ===== src/Base/Floats.antt =====
-- The double-precision arithmetic of the host, as far as the source uses it. The laws are IEEE 754's:
-- a comparison with NaN is false, so `>=` is transitive.
use Prim.Native.Nat.{ℕ}
use mathlib.Core.Path.{◌≡◌}
use mathlib.Core.Bool.{Bool, true}

pub record F64 : Type 1 where
  pub F : Type 0
  pub of_nat : ℕ → F
  -- `decimal m e` is the literal m / 10 ^ e.
  pub decimal : ℕ → ℕ → F
  pub nan : F
  pub div : F → F → F
  pub ge : F → F → Bool
  pub gt : F → F → Bool
  pub is_finite : F → Bool
  pub ge_trans : (a b c : F) → ge a b ≡ true → ge b c ≡ true → ge a c ≡ true
