-- ===== src/Reporter/Throttle.antt =====
-- The lines of `TimebaseReporter::decide` over a session's verdicts.
use hitl_daemon.Base.{
  ℕ, ◌+◌, ◌-◌, ◌*◌, ◌≤◌, ◌<◌, ◌≡◌, ◌⊎◌, Bool, true, false, not, ltb, List, [], ◌∷◌, arith,
}
use hitl_daemon.Health.{Health, severity_rank, is_ok}
use hitl_daemon.Reporter.{
  TimebaseReporter, recovered, degraded, faulted, decide, is_line, warn_interval,
}

-- A verdict worse than the reported one is logged at once, as degraded or faulted by what it is,
-- and becomes the reported one.
pub escalation-immediate :
    (r : TimebaseReporter) (health : Health) (now : ℕ)
    → severity_rank r.reported < severity_rank health
    → ((decide r health now).0.reported ≡ health)
      × ((decide r health now).0.last_warning ≡ now)
      × (((health ≡ Health.faulted) × ((decide r health now).1 ≡ faulted))
          ⊎ ((health ≡ Health.degraded) × ((decide r health now).1 ≡ degraded)))
unfolding decide severity_rank is_ok
escalation-immediate r health now h = ground arith

-- A verdict that is no escalation is either logged 5 s or more after the last warning and becomes
-- the reported one, or it leaves the reported verdict and the last warning alone.
pub other-throttled :
    (r : TimebaseReporter) (health : Health) (now : ℕ)
    → severity_rank health ≤ severity_rank r.reported
    → ((is_line (decide r health now).1 ≡ true)
        × (warn_interval ≤ now - r.last_warning)
        × ((decide r health now).0.reported ≡ health)
        × ((decide r health now).0.last_warning ≡ now))
      ⊎ ((is_line (decide r health now).1 ≡ false)
          × ((decide r health now).0.reported ≡ r.reported)
          × ((decide r health now).0.last_warning ≡ r.last_warning))
unfolding decide severity_rank is_ok is_line
other-throttled r health now h = ground arith

-- A recovery line is logged for an ok verdict only, and names the reported verdict, which was
-- worse than ok.
pub recovered-from :
    (r : TimebaseReporter) (health from : Health) (now : ℕ)
    → (decide r health now).1 ≡ recovered from
    → (health ≡ Health.ok) × (from ≡ r.reported) × (1 ≤ severity_rank r.reported)
unfolding decide severity_rank is_ok
recovered-from r health from now h = ground arith

-- The lines of a session that are escalations, and those that are not.
count_of : Bool → Bool → ℕ
count_of true true = 1
count_of _ _ = 0

pub escalations : TimebaseReporter → List (Health × ℕ) → ℕ
unfolding severity_rank count_of
escalations r [] = 0
escalations r ((health, now) ∷ rest) =
    count_of (is_line (decide r health now).1)
      (ltb (severity_rank r.reported) (severity_rank health))
    + escalations (decide r health now).0 rest

pub repeats : TimebaseReporter → List (Health × ℕ) → ℕ
unfolding severity_rank count_of
repeats r [] = 0
repeats r ((health, now) ∷ rest) =
    count_of (is_line (decide r health now).1)
      (not (ltb (severity_rank r.reported) (severity_rank health)))
    + repeats (decide r health now).0 rest

-- The instants of a session come in order.
abbrev pub Ordered : ℕ → List (Health × ℕ) → Type 0
Ordered last [] = Unit {0}
Ordered last ((health, now) ∷ rest) = (last ≤ now) × Ordered now rest

abbrev pub last_instant : ℕ → List (Health × ℕ) → ℕ
last_instant last [] = last
last_instant last ((health, now) ∷ rest) = last_instant now rest

-- One observation against the bounds of the session.
decide_bounds :
    (r : TimebaseReporter) (health : Health) (now last : ℕ)
    → r.last_warning ≤ last
    → last ≤ now
    → let d = decide r health now in
      let up = ltb (severity_rank r.reported) (severity_rank health) in
      (warn_interval * count_of (is_line d.1) (not up) + r.last_warning ≤ d.0.last_warning)
      × (d.0.last_warning ≤ now)
      × (count_of (is_line d.1) up + severity_rank r.reported
          ≤ severity_rank d.0.reported + 2 * count_of (is_line d.1) (not up))
unfolding decide severity_rank is_ok is_line count_of
decide_bounds r health now last p q = ground arith

rank-le : (h : Health) → severity_rank h ≤ 2
unfolding severity_rank
rank-le Health.ok = omega arith
rank-le Health.degraded = omega arith
rank-le Health.faulted = omega arith

session_bounds :
    (obs : List (Health × ℕ)) (r : TimebaseReporter) (last : ℕ)
    → r.last_warning ≤ last
    → Ordered last obs
    → (warn_interval * repeats r obs + r.last_warning ≤ last_instant last obs)
      × (escalations r obs + severity_rank r.reported ≤ 2 + 2 * repeats r obs)
unfolding repeats escalations
session_bounds [] r last p o = (omega arith, omega (arith, rank-le r.reported))
session_bounds ((health, now) ∷ rest) r last p o =
    let d = decide_bounds r health now last p o.0 in
    let ih = session_bounds rest (decide r health now).0 now d.1 o.1 in
    (omega (arith, d, ih), omega (arith, d, ih))

-- Over observations in order of time, the lines that are no escalation are 5 s apart on average
-- from the last warning on, and the escalations are at most two more than twice those lines.
pub lines_bounded :
    (obs : List (Health × ℕ)) (r : TimebaseReporter) (last : ℕ)
    → r.last_warning ≤ last
    → Ordered last obs
    → (warn_interval * repeats r obs + r.last_warning ≤ last_instant last obs)
      × (escalations r obs ≤ 2 + 2 * repeats r obs)
lines_bounded obs r last p o = let b = session_bounds obs r last p o in (b.0, omega (arith, b.1))
