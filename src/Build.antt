-- ===== src/Build.antt =====
-- crates/websocket/src/build_config.rs: a build the browser chose, pushed to the flight controller,
-- to the origin and to the simulation, in that order.
pub mod Push
pub mod PushLaws
pub mod Fingerprint
pub mod Location
pub mod LocationLaws
pub mod RepushLaws
pub mod Handler
pub mod Catalogue
pub mod CatalogueLaws
pub mod Repush
pub mod Laws
pub mod Course
pub mod Tests
