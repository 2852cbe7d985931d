-- ===== src/Realtime/Laws.antt =====
-- The scheduling contract over the window checks of a session.
use hitl_daemon.Base.{◌+◌, ◌≡◌, ◌≢◌, refl, ◌∙◌, Bool, true, false, List, [], ◌∷◌, arith}
use hitl_daemon.Realtime.{
  Verification, intact, revoked, not_applicable, Contract, check_realtime_contract, check_all,
  fold_realtime_verdict, revoked_token,
}

-- Whether a revocation is among the readings.
abbrev pub any_revoked : List Verification → Bool
any_revoked [] = false
any_revoked (revoked ∷ rest) = true
any_revoked (intact ∷ rest) = any_revoked rest
any_revoked (not_applicable ∷ rest) = any_revoked rest

-- What a contract says at the end of a run that began with `c`.
pub Outcome : Bool → Contract → Contract → Type 0
Outcome true c d =
    (d.realtime_revoked ≡ true) × (d.realtime_policy ≡ revoked_token) × (d.warned ≡ c.warned + 1)
Outcome false c d =
    (d.realtime_revoked ≡ false) × (d.realtime_policy ≡ c.realtime_policy) × (d.warned ≡ c.warned)

after_revocation :
    (c : Contract) (v : Verification)
    → c.realtime_revoked ≡ true
    → ((check_realtime_contract c v).realtime_revoked ≡ true)
      × ((check_realtime_contract c v).realtime_policy ≡ revoked_token)
      × ((check_realtime_contract c v).warned ≡ c.warned)
unfolding check_realtime_contract fold_realtime_verdict
after_revocation c v r = rw r (refl, refl, refl)

revoked_stays :
    (vs : List Verification) (c : Contract)
    → c.realtime_revoked ≡ true
    → c.realtime_policy ≡ revoked_token
    → ((check_all c vs).realtime_revoked ≡ true)
      × ((check_all c vs).realtime_policy ≡ revoked_token)
      × ((check_all c vs).warned ≡ c.warned)
unfolding check_all
revoked_stays [] c r p = (r, p, refl)
revoked_stays (v ∷ vs) c r p =
    let (a, b, e) = after_revocation c v r in
    let (a2, b2, e2) = revoked_stays vs (check_realtime_contract c v) a b in (a2, b2, e2 ∙ e)

on_revocation :
    (c : Contract) → c.realtime_revoked ≡ false → Outcome true c (check_realtime_contract c revoked)
unfolding check_realtime_contract fold_realtime_verdict Outcome
on_revocation c r = rw r (refl, refl, refl)

while_intact :
    (c : Contract) (v : Verification)
    → v ≢ revoked
    → c.realtime_revoked ≡ false
    → Outcome false c (check_realtime_contract c v)
unfolding check_realtime_contract fold_realtime_verdict Outcome
while_intact c revoked n r = ground arith
while_intact c intact n r = rw r (refl, refl, refl)
while_intact c not_applicable n r = rw r (refl, refl, refl)

carry : (b : Bool) (c d e : Contract) → Outcome false c d → Outcome b d e → Outcome b c e
unfolding Outcome
carry true c d e (r, q, w) (r2, q2, w2) = (r2, q2, omega arith)
carry false c d e (r, q, w) (r2, q2, w2) = (r2, q2 ∙ q, w2 ∙ w)

-- From an unrevoked contract, any window checks without a revocation change neither the policy nor
-- the count of warnings; with one, the policy ends as revoked, for good, and exactly one warning
-- was logged.
pub check_all-once :
    (vs : List Verification) (c : Contract)
    → c.realtime_revoked ≡ false
    → Outcome (any_revoked vs) c (check_all c vs)
unfolding check_all Outcome
check_all-once [] c r = (r, refl, refl)
check_all-once (revoked ∷ vs) c r =
    let (a, b, e) = on_revocation c r in
    let (a2, b2, e2) = revoked_stays vs (check_realtime_contract c revoked) a b in (a2, b2, e2 ∙ e)
check_all-once (intact ∷ vs) c r =
    let o = while_intact c intact (ground arith) r in
    carry (any_revoked vs) c (check_realtime_contract c intact)
      (check_all (check_realtime_contract c intact) vs) o
      (check_all-once vs (check_realtime_contract c intact) o.0)
check_all-once (not_applicable ∷ vs) c r =
    let o = while_intact c not_applicable (ground arith) r in
    carry (any_revoked vs) c (check_realtime_contract c not_applicable)
      (check_all (check_realtime_contract c not_applicable) vs) o
      (check_all-once vs (check_realtime_contract c not_applicable) o.0)
