-- ===== src/Build/Fingerprint.antt =====
-- The fingerprint of a push tells two builds apart that differ in their hover throttle.
use hitl_daemon.Base.{ℕ, zero, suc, ◌*◌, ◌/◌, ◌%◌, ◌^◌, ◌<◌, ◌≡◌, ◌≢◌, refl, ◌∙◌, arith}
use hitl_daemon.Provision.{Env}
use hitl_daemon.Build.Push.{Library, LastVerifiedParams, xor_bits, push_fingerprint}

xor_bits-injective : (w a b c : ℕ) → b < 2 ^ w → c < 2 ^ w → xor_bits w a b ≡ xor_bits w a c → b ≡ c
unfolding xor_bits
xor_bits-injective zero a b c x y q = omega (arith, x, y)
xor_bits-injective (suc w) a b c x y q =
    let halves =
      xor_bits-injective w (a / 2) (b / 2) (c / 2) (omega (arith, x)) (omega (arith, y))
        (omega (arith, q)) in
    omega (arith, q, halves)

xor_bits_bound : (w a b : ℕ) → xor_bits w a b < 2 ^ w
unfolding xor_bits
xor_bits_bound zero a b = omega arith
xor_bits_bound (suc w) a b = omega (arith, xor_bits_bound w (a / 2) (b / 2))

xor_bits_comm : (w a b : ℕ) → xor_bits w a b ≡ xor_bits w b a
unfolding xor_bits
xor_bits_comm zero a b = refl
xor_bits_comm (suc w) a b = omega (arith, xor_bits_comm w (a / 2) (b / 2))

cancel :
    (f t x y : ℕ)
    → x < 2 ^ 32
    → y < 2 ^ 32
    → xor_bits 64 (xor_bits 64 f (x * 2 ^ 32 % 2 ^ 64)) t
      ≡ xor_bits 64 (xor_bits 64 f (y * 2 ^ 32 % 2 ^ 64)) t
    → x ≡ y
cancel f t x y u v q =
    let a = xor_bits 64 f (x * 2 ^ 32 % 2 ^ 64) in
    let b = xor_bits 64 f (y * 2 ^ 32 % 2 ^ 64) in
    let outer : a ≡ b =
      xor_bits-injective 64 t a b (xor_bits_bound 64 f _) (xor_bits_bound 64 f _)
        (xor_bits_comm 64 t a ∙ q ∙ xor_bits_comm 64 b t) in
    let inner : x * 2 ^ 32 % 2 ^ 64 ≡ y * 2 ^ 32 % 2 ^ 64 =
      xor_bits-injective 64 f (x * 2 ^ 32 % 2 ^ 64) (y * 2 ^ 32 % 2 ^ 64) (omega arith)
        (omega arith) outer in
    omega (arith, inner, u, v)

module _ (e : Env) (l : Library e.F32) where
  -- The fingerprint tells two throttles apart.
  push_fingerprint-hover :
      (p q : LastVerifiedParams e l)
      → l.fingerprint p.pids ≡ l.fingerprint q.pids
      → e.to_bits p.thr_min ≡ e.to_bits q.thr_min
      → e.to_bits p.hover_cmd < 2 ^ 32
      → e.to_bits q.hover_cmd < 2 ^ 32
      → e.to_bits p.hover_cmd ≢ e.to_bits q.hover_cmd
      → push_fingerprint e l p ≢ push_fingerprint e l q
  unfolding push_fingerprint
  push_fingerprint-hover p q same thr x y apart eq = apart (
      cancel (l.fingerprint p.pids) (e.to_bits p.thr_min * 2 ^ 16 % 2 ^ 64) (e.to_bits p.hover_cmd)
        (e.to_bits q.hover_cmd) x y (eq ∙ cc (same, thr)))
