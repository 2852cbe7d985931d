-- ===== src/Realtime.antt =====
-- crates/simulation/src/realtime.rs: the scheduling contract as the statistics show it, and the
-- check of crates/simulation/src/loop_runner.rs that calls it once a window. A policy is a text.
pub mod Laws
use Prim.Native.String.{String}
use hitl_daemon.Base.{
  ℕ, ◌+◌, ◌≤◌, ◌≡◌, ◌⊎◌, inl, inr, refl, Bool, true, false, if◌then◌else◌, List, [], ◌∷◌, arith,
}

pub data Verification : Type 0 where
  intact revoked not_applicable : Verification

abbrev pub revoked_token : String
revoked_token = "revoked"

unfoldable pub fold_realtime_verdict : String → Verification → Bool → String × Bool
fold_realtime_verdict granted_token verdict true = (revoked_token, false)
fold_realtime_verdict granted_token revoked false = (revoked_token, true)
fold_realtime_verdict granted_token intact false = (granted_token, false)
fold_realtime_verdict granted_token not_applicable false = (granted_token, false)

pub record Contract : Type 0 where
  pub realtime_policy : String
  pub realtime_revoked : Bool
  -- The revocations that were logged.
  pub warned : ℕ

unfoldable pub check_realtime_contract : Contract → Verification → Contract
check_realtime_contract c verdict =
    let (policy, newly_revoked) =
      fold_realtime_verdict c.realtime_policy verdict c.realtime_revoked in
    record {
      realtime_policy = policy;
      realtime_revoked = if newly_revoked then true else c.realtime_revoked;
      warned = if newly_revoked then c.warned + 1 else c.warned;
    }

unfoldable pub check_all : Contract → List Verification → Contract
check_all c [] = c
check_all c (v ∷ rest) = check_all (check_realtime_contract c v) rest
