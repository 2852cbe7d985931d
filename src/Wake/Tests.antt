-- ===== src/Wake/Tests.antt =====
-- A few samples of lateness, and what is read of them.
use hitl_daemon.Base.{◌≡◌, refl}
use hitl_daemon.Wake.{new, record_late, quantile_us, bucket_edge_us, clamp, scan, bump}

-- Three samples, the median of which is in the second bucket.
median : quantile_us (λ n. 2) (record_late (record_late (record_late new 9000) 80) 120) ≡ 200
unfolding quantile_us bucket_edge_us clamp scan record_late new bump
median = refl
