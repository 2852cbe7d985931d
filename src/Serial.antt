-- ===== src/Serial.antt =====
-- crates/mavlink-io/src/serial.rs: which serial port the flight controller is on. Names and products are
-- their bytes.
pub mod Probe
pub mod ProbeLaws
pub mod Ports
pub mod Detect
pub mod Candidates
pub mod DetectLaws
pub mod Outcome
pub mod Tests
