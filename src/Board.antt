-- ===== src/Board.antt =====
-- The flight controller as the reset and the build configuration see it: the EKF2 restart, PX4's own
-- readiness and the vehicle reset.
pub mod Monitor
pub mod Nsh
pub mod Ready
pub mod Session
pub mod Reset
pub mod ReadyLaws
pub mod SessionLaws
pub mod ResetLaws
pub mod Tests
