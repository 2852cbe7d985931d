-- ===== src/Wake.antt =====
-- The wake-lateness figures of crates/simulation/src/loop_runner.rs: the histogram and a window's
-- counters. The counters do not reach 2 ^ 64 in a session.
pub mod Histogram
pub mod Windows
pub mod Tests
use hitl_daemon.Base.{
  ℕ, zero, suc, ◌+◌, ◌-◌, ◌*◌, ◌/◌, min, max, Bool, true, false, ltb, leb, ◌==◌, if◌then◌else◌,
  Option, none, some, List, [], ◌∷◌, replicate, length,
}

abbrev pub bucket_us : ℕ
bucket_us = 100

abbrev pub bucket_count : ℕ
bucket_count = 64

pub record WakeLateHistogram : Type 0 where
  pub buckets : List ℕ
  pub overflow : ℕ
  pub count : ℕ
  pub max_seen : ℕ

unfoldable pub new : WakeLateHistogram
new = record { buckets = replicate bucket_count 0; overflow = 0; count = 0; max_seen = 0 }

-- `*slot += 1`.
unfoldable pub bump : List ℕ → ℕ → List ℕ
bump [] i = []
bump (b ∷ bs) zero = (b + 1) ∷ bs
bump (b ∷ bs) (suc i) = b ∷ bump bs i

-- The method `record`, whose name is reserved here.
unfoldable pub record_late : WakeLateHistogram → ℕ → WakeLateHistogram
record_late h wake_late_us =
    let bucket = wake_late_us / bucket_us in
    let found = ltb bucket (length h.buckets) in
    record {
      buckets = if found then bump h.buckets bucket else h.buckets;
      overflow = if found then h.overflow else h.overflow + 1;
      count = h.count + 1;
      max_seen = max h.max_seen wake_late_us;
    }

-- The loop over the buckets.
unfoldable pub scan : ℕ → ℕ → ℕ → List ℕ → ℕ
scan index seen target [] = bucket_count * bucket_us
scan index seen target (samples ∷ rest) =
    let later = scan (index + 1) (seen + samples) target rest in
    if leb target (seen + samples) then (index + 1) * bucket_us else later

unfoldable pub clamp : ℕ → ℕ → ℕ → ℕ
clamp x lo hi = if ltb x lo then lo else if ltb hi x then hi else x

-- `rank` stands for `(count as f64 * q).ceil() as u64` of the quantile that is asked for.
unfoldable pub bucket_edge_us : (ℕ → ℕ) → WakeLateHistogram → ℕ
unfolding clamp
bucket_edge_us rank h =
    if h.count == 0 then 0 else scan 0 0 (clamp (rank h.count) 1 h.count) h.buckets

unfoldable pub quantile_us : (ℕ → ℕ) → WakeLateHistogram → ℕ
quantile_us rank h = min (bucket_edge_us rank h) h.max_seen

pub record TimebaseWindow : Type 0 where
  pub iterations : ℕ
  pub steps : ℕ
  pub wake_late_total_us : ℕ
  pub wake_late_samples : ℕ
  pub wake_late_max_us : ℕ
  pub overrun_us : ℕ
  pub drops_at_start : ℕ
  pub discarded_at_start : ℕ
  pub gaps_at_start : ℕ

-- The method `record`: `none` is an iteration that did not sleep.
unfoldable pub record_iteration : TimebaseWindow → ℕ → Option ℕ → ℕ → TimebaseWindow
record_iteration w steps none overrun_us = record w {
  iterations = w.iterations + 1;
  steps = w.steps + steps;
  overrun_us = w.overrun_us + overrun_us;
}
record_iteration w steps (some late) overrun_us = record w {
  iterations = w.iterations + 1;
  steps = w.steps + steps;
  wake_late_total_us = w.wake_late_total_us + late;
  wake_late_samples = w.wake_late_samples + 1;
  wake_late_max_us = max w.wake_late_max_us late;
  overrun_us = w.overrun_us + overrun_us;
}

unfoldable pub restart : ℕ → ℕ → ℕ → TimebaseWindow
restart drops discarded_us gap_count = record {
  iterations = 0;
  steps = 0;
  wake_late_total_us = 0;
  wake_late_samples = 0;
  wake_late_max_us = 0;
  overrun_us = 0;
  drops_at_start = drops;
  discarded_at_start = discarded_us;
  gaps_at_start = gap_count;
}
