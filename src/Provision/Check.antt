-- ===== src/Provision/Check.antt =====
-- crates/websocket/src/preflight.rs: what a browser is told of the board before it may fly.
use Prim.Native.String.{String}
use hitl_daemon.Base.{
  ◌==◌, ltb, ◌≤◌, ◌≡◌, ◌≢◌, Bool, true, false, not, ◌&&◌, if◌then◌else◌, Option, List, u64_max,
  arith,
}
use hitl_daemon.Vehicle.{Physics, SimulationState, Access, perform_all}
use hitl_daemon.Vehicle.Laws.{perform_all-Kept}

pub data PreflightReadiness : Type 0 where
  not_applicable unknown ready not_ready : PreflightReadiness

pub record PreflightStatus : Type 0 where
  pub connected : Bool
  pub hitl_enabled : Bool
  pub is_quadrotor : Bool
  pub readiness : PreflightReadiness
  pub board_identity : Option String

module _ (p : Physics) where
  -- Whether there is a queue to the board, and the identity that it reported.
  unfoldable pub check : Bool → Option String → SimulationState p → PreflightStatus
  check has_mav_tx board_identity s =
      let count = s.inner.heartbeat_count in
      record {
        connected = ltb 0 count;
        hitl_enabled = s.inner.hitl_enabled;
        is_quadrotor = s.inner.is_quadrotor;
        readiness =
            if not has_mav_tx
            then not_applicable
            else if count == 0
            then unknown
            else if s.inner.hitl_enabled && s.inner.is_quadrotor
            then ready
            else not_ready;
        board_identity = board_identity;
      }

  readiness-known :
      (mav count_zero flags : Bool)
      → count_zero ≡ false
      → (if not mav
          then not_applicable
          else if count_zero
          then unknown
          else if flags
          then ready
          else not_ready)
        ≢ unknown
  readiness-known false count_zero flags z q = cc q
  readiness-known true true flags z q = cc z
  readiness-known true false true z q = cc q
  readiness-known true false false z q = cc q

  -- A board that was heard stays known, whatever is done to the vehicle.
  check_stays :
      (s : SimulationState p) (has_mav_tx : Bool) (board_identity : Option String)
      (xs : List (Access p))
      → s.inner.heartbeat_count ≤ u64_max
      → (check has_mav_tx board_identity s).connected ≡ true
      → let status = check has_mav_tx board_identity (perform_all p s xs) in
        (status.connected ≡ true) × (status.readiness ≢ unknown)
  unfolding check
  check_stays s b o xs bound q =
      let (time, count, running) = perform_all-Kept p s xs bound in
      (
        ground (arith, count, q),
        readiness-known b ((perform_all p s xs).inner.heartbeat_count == 0)
            ((perform_all p s xs).inner.hitl_enabled && (perform_all p s xs).inner.is_quadrotor)
            (ground (arith, count, q)),
      )
