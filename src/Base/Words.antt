-- ===== src/Base/Words.antt =====
-- The saturating operations of Rust's `u64` and `u32`. `saturating_sub` is `-`, which stops at 0.
use Prim.Native.Nat.{ℕ, ◌+◌, ◌*◌, min}

abbrev pub u32_max : ℕ
u32_max = 4294967295

abbrev pub u64_max : ℕ
u64_max = 18446744073709551615

abbrev pub saturating_add : ℕ → ℕ → ℕ
saturating_add a b = min (a + b) u64_max

abbrev pub saturating_mul : ℕ → ℕ → ℕ
saturating_mul a b = min (a * b) u64_max

abbrev pub saturating_add_u32 : ℕ → ℕ → ℕ
saturating_add_u32 a b = min (a + b) u32_max
