-- ===== src/Protocol/Bytes.antt =====
-- The byte operations that crates/websocket/src/protocol.rs takes from Rust's core library:
-- `to_le_bytes`, `from_le_bytes`, slices, `copy_from_slice` and a `bool` as a byte. A byte is a
-- number below 256, an `f32` or `f64` is its bit pattern, a number below 2^32 or 2^64.
use hitl_daemon.Base.{
  ℕ, zero, suc, Bool, true, false, not, ◌+◌, ◌*◌, ◌/◌, ◌%◌, ◌<◌, ◌≡◌, ◌==◌, List, [], ◌∷◌, take,
  drop, arith,
}

-- The `w` low bytes of `n`, the lowest first.
abbrev pub to_le_bytes : ℕ → ℕ → List ℕ
to_le_bytes zero n = []
to_le_bytes (suc w) n = (n % 256) ∷ to_le_bytes w (n / 256)

abbrev pub from_le_bytes : List ℕ → ℕ
from_le_bytes [] = 0
from_le_bytes (b ∷ bs) = b + 256 * from_le_bytes bs

-- `data[lo..lo + n]`.
abbrev pub slice : ℕ → ℕ → List ℕ → List ℕ
slice lo n bytes = take n (drop lo bytes)

-- `data[i]`, which the source reads below the length only.
abbrev pub byte_at : ℕ → List ℕ → ℕ
byte_at i [] = 0
byte_at zero (b ∷ bytes) = b
byte_at (suc i) (b ∷ bytes) = byte_at i bytes

-- `buf[lo..lo + n].copy_from_slice(new)`, where `n` is the length of `new`.
abbrev pub overwrite : List ℕ → List ℕ → List ℕ
overwrite [] buf = buf
overwrite (b ∷ new) [] = []
overwrite (b ∷ new) (old ∷ buf) = b ∷ overwrite new buf

abbrev pub copy_from_slice : ℕ → List ℕ → List ℕ → List ℕ
copy_from_slice zero new buf = overwrite new buf
copy_from_slice (suc lo) new [] = []
copy_from_slice (suc lo) new (b ∷ buf) = b ∷ copy_from_slice lo new buf

-- `armed as u8` and `data[i] != 0`.
abbrev pub u8_from : Bool → ℕ
u8_from true = 1
u8_from false = 0

abbrev pub nonzero : ℕ → Bool
nonzero b = not (b == 0)

-- The loops over an array of `f32`: its elements are written and read four bytes apart.
abbrev pub put_floats : ℕ → List ℕ → List ℕ → List ℕ
put_floats offset [] buf = buf
put_floats offset (v ∷ vs) buf =
    put_floats (offset + 4) vs (copy_from_slice offset (to_le_bytes 4 v) buf)

abbrev pub f32_at : ℕ → List ℕ → ℕ
f32_at offset bytes = from_le_bytes (slice offset 4 bytes)

pub le2 : (n : ℕ) → n < 65536 → from_le_bytes (to_le_bytes 2 n) ≡ n
le2 n h = omega arith

pub le4 : (n : ℕ) → n < 4294967296 → from_le_bytes (to_le_bytes 4 n) ≡ n
le4 n h = omega arith

pub le8 : (n : ℕ) → n < 18446744073709551616 → from_le_bytes (to_le_bytes 8 n) ≡ n
le8 n h = omega arith
