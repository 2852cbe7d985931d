-- ===== src/Cadence/Rates.antt =====
-- What an accepted tick rate gives the loop.
use hitl_daemon.Base.{ℕ, ◌+◌, ◌*◌, ◌/◌, ◌%◌, ◌≤◌, ◌<◌, ◌≡◌, ap, max, ok, arith}
use native.Mathlib.Nat.{div-eq_of_eq-mul_left}
use hitl_daemon.Base.Division.{quotient-le, quotient_rest, steps_mul-le}
use hitl_daemon.Cadence.{
  validate_tick_rate, nanos_per_sec, micros_per_sec, max_tick_rate_hz, loop_step_us, loop_timebase,
}
use hitl_daemon.Timebase.{new, budget_steps_at}

accepted_divides :
    (hz r : ℕ)
    → validate_tick_rate hz ≡ ok r
    → (1 ≤ hz) × (hz ≤ 1000) × (1000000 % hz ≡ 0) × (r ≡ hz)
unfolding validate_tick_rate
accepted_divides hz r h = ground arith

exact : (n hz : ℕ) → n % hz ≡ 0 → n / hz * hz ≡ n
exact n hz h = grind arith

quotient_of : (n q hz : ℕ) → 1 ≤ hz → n ≡ q * hz → n / hz ≡ q
quotient_of n q hz h e = div-eq_of_eq-mul_left h e

-- An accepted rate is returned as it is, lies between 1 and 1000 Hz, and its step of whole
-- microseconds adds up to the second and to its period in nanoseconds exactly.
pub validate_tick_rate-exact :
    (hz r : ℕ)
    → validate_tick_rate hz ≡ ok r
    → (r ≡ hz)
      × (1 ≤ hz)
      × (hz ≤ max_tick_rate_hz)
      × (loop_step_us hz * hz ≡ micros_per_sec)
      × (nanos_per_sec / hz ≡ loop_step_us hz * 1000)
unfolding loop_step_us
validate_tick_rate-exact hz r h =
    let a = accepted_divides hz r h in
    let e : max hz 1 ≡ hz = omega arith in
    let x : 1000000 / hz * hz ≡ 1000000 = exact 1000000 hz a.2 in
    rw e (a.3, a.0, a.1, x, quotient_of 1000000000 (1000000 / hz * 1000) hz a.0 (omega (arith, x)))

-- Every rate from 1 to 1000 Hz that divides a million is accepted.
pub validate_tick_rate-accepts :
    (hz : ℕ)
    → 1 ≤ hz
    → hz ≤ max_tick_rate_hz
    → micros_per_sec % hz ≡ 0
    → validate_tick_rate hz ≡ ok hz
unfolding validate_tick_rate
validate_tick_rate-accepts hz p m d =
    let x : 1000000 / hz * hz ≡ 1000000 = exact 1000000 hz d in
    let q : 1000000000 / hz ≡ 1000000 / hz * 1000 =
      quotient_of 1000000000 (1000000 / hz * 1000) hz p (omega (arith, x)) in
    let n : 1000000000 % hz ≡ 0 = omega (arith, x, ap (λ (k : ℕ). k * hz) q) in ground arith

slow_enough : (hz : ℕ) → 1 ≤ hz → hz ≤ 1000 → 1 ≤ 1000000 / hz
slow_enough hz p q = grind arith

allowance_covers :
    (s : ℕ)
    → 1 ≤ s
    → let n = max (budget_steps_at s 20000) 1 in (20000 < n * s + s) × (n * s ≤ max 20000 s)
unfolding budget_steps_at
allowance_covers s p =
    let e = ap (λ (k : ℕ). 20000 / k) (let m : max s 1 ≡ s = omega arith in m) in
    let n = max (budget_steps_at s 20000) 1 in
    let small = quotient-le 20000 s 20001 (omega arith) in
    (
      quotient_rest 20000 s n p (omega (arith, e, small)),
      steps_mul-le 20000 s n (omega (arith, e, small)),
    )

-- At an accepted rate the catch-up allowance of the loop's planner covers the gap threshold up to
-- less than one step, and no more than the threshold or one step.
pub loop_timebase-covers :
    (hz r : ℕ)
    → validate_tick_rate hz ≡ ok r
    → ((loop_timebase hz).gap_threshold_us
        < (loop_timebase hz).max_catchup_steps * (loop_timebase hz).step_us
          + (loop_timebase hz).step_us)
      × ((loop_timebase hz).max_catchup_steps * (loop_timebase hz).step_us
          ≤ max (loop_timebase hz).gap_threshold_us (loop_timebase hz).step_us)
unfolding loop_timebase new loop_step_us
loop_timebase-covers hz r h =
    let a = accepted_divides hz r h in
    let e : max hz 1 ≡ hz = omega arith in
    let f = ap (λ (k : ℕ). 1000000 / k) e in
    let p : 1 ≤ loop_step_us hz = omega (arith, f, slow_enough hz a.0 a.1) in
    let m : max (loop_step_us hz) 1 ≡ loop_step_us hz = omega arith in
    rw m (allowance_covers (loop_step_us hz) p)
