-- ===== src/Annunciator/Policy.antt =====
-- The announcements of `AnnunciatorPolicy` (src/timebase_cli.rs) over a session's windows.
use hitl_daemon.Base.{
  ℕ, zero, suc, ◌+◌, ◌-◌, ◌≤◌, ◌≡◌, inl, inr, refl, true, some, List, [], ◌∷◌, arith, min, u32_max,
  Bool-cases,
}
use hitl_daemon.Health.{TimebaseHealth, wire_rank}
use hitl_daemon.Annunciator.{
  AnnunciatorPolicy, new, observe, observe_all, same_health, count_window, annunciator_min_interval,
  deescalate_windows,
}

-- The last `n` observations, the latest first, were all of `h`.
abbrev pub Streak : ℕ → TimebaseHealth → List TimebaseHealth → Type 0
Streak zero h past = Unit {0}
Streak (suc n) h [] = ⊥
Streak (suc n) h (x ∷ past) = (x ≡ h) × Streak n h past

-- The policy counts no more windows than there were.
abbrev pub IsCounted : AnnunciatorPolicy → List TimebaseHealth → Type 0
IsCounted p past = Streak p.consecutive p.candidate past

new-IsCounted : (now : ℕ) → IsCounted (new now) []
unfolding new
new-IsCounted now = tt

Streak-less :
    (m n : ℕ) (h : TimebaseHealth) (past : List TimebaseHealth)
    → m ≤ n
    → Streak n h past
    → Streak m h past
Streak-less zero n h past p s = tt
Streak-less (suc m) zero h past p s = absurd (omega arith)
Streak-less (suc m) (suc n) h [] p s = s
Streak-less (suc m) (suc n) h (x ∷ past) p s = (s.0, Streak-less m n h past (omega arith) s.1)

same_health-eq : (a b : TimebaseHealth) → same_health a b ≡ true → a ≡ b
unfolding same_health
same_health-eq a b h = ground arith

count_window-IsCounted :
    (p : AnnunciatorPolicy) (observed : TimebaseHealth) (past : List TimebaseHealth)
    → IsCounted p past
    → IsCounted (count_window p observed) (observed ∷ past)
unfolding count_window
count_window-IsCounted p observed past c = elim (Bool-cases (same_health observed p.candidate)) [
  | inl e ↦ rw e (
      Streak-less (min (p.consecutive + 1) u32_max) (suc p.consecutive) p.candidate
        (observed ∷ past) (omega arith) (same_health-eq observed p.candidate e, c))
  | inr e ↦ rw e (refl, tt)
]

-- What an observation announces does not change what it counts.
observe-counted :
    (p : AnnunciatorPolicy) (observed : TimebaseHealth) (now : ℕ)
    → ((observe p observed now).0.consecutive ≡ (count_window p observed).consecutive)
      × ((observe p observed now).0.candidate ≡ (count_window p observed).candidate)
unfolding observe
observe-counted p observed now = ground arith

observe-IsCounted :
    (p : AnnunciatorPolicy) (observed : TimebaseHealth) (now : ℕ) (past : List TimebaseHealth)
    → IsCounted p past
    → IsCounted (observe p observed now).0 (observed ∷ past)
observe-IsCounted p observed now past c =
    let e = observe-counted p observed now in
    rw (e.0, e.1) (count_window-IsCounted p observed past c)

-- The health of each observation of a session, the latest first.
abbrev pub history : List TimebaseHealth → List (TimebaseHealth × ℕ) → List TimebaseHealth
history past [] = past
history past ((observed, now) ∷ rest) = history (observed ∷ past) rest

observe_all-IsCounted :
    (obs : List (TimebaseHealth × ℕ)) (p : AnnunciatorPolicy) (past : List TimebaseHealth)
    → IsCounted p past
    → IsCounted (observe_all p obs) (history past obs)
unfolding observe_all
observe_all-IsCounted [] p past c = c
observe_all-IsCounted ((observed, now) ∷ rest) p past c =
    observe_all-IsCounted rest (observe p observed now).0 (observed ∷ past)
      (observe-IsCounted p observed now past c)

-- A milder announcement needs the count and the interval.
milder_settled :
    (p : AnnunciatorPolicy) (observed previous : TimebaseHealth) (now : ℕ)
    → wire_rank observed ≤ wire_rank p.announced
    → (observe p observed now).1 ≡ some (observed, previous)
    → (deescalate_windows ≤ (count_window p observed).consecutive)
      × ((count_window p observed).candidate ≡ observed)
      × (annunciator_min_interval ≤ now - p.last_sent)
      × (previous ≡ p.announced)
unfolding observe
milder_settled p observed previous now h e = ground (arith, same_health-eq observed p.candidate)

-- Through any windows, an announcement of the same or a milder health comes only after three equal
-- windows in a row and 5 s after the last announcement, and names the health that was announced
-- before.
pub recovery-settled :
    (obs : List (TimebaseHealth × ℕ)) (start now : ℕ) (observed previous : TimebaseHealth)
    → wire_rank observed ≤ wire_rank (observe_all (new start) obs).announced
    → (observe (observe_all (new start) obs) observed now).1 ≡ some (observed, previous)
    → Streak deescalate_windows observed (observed ∷ history [] obs)
      × (annunciator_min_interval ≤ now - (observe_all (new start) obs).last_sent)
      × (previous ≡ (observe_all (new start) obs).announced)
recovery-settled obs start now observed previous h e =
    let p = observe_all (new start) obs in
    let m = milder_settled p observed previous now h e in
    let c =
      count_window-IsCounted p observed (history [] obs)
        (observe_all-IsCounted obs (new start) [] (new-IsCounted start)) in
    let c' = rw m.1 at c in
    (
      Streak-less deescalate_windows (count_window p observed).consecutive observed
          (observed ∷ history [] obs) m.0 c',
      m.2,
      m.3,
    )
