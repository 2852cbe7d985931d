-- ===== src/Terrain.antt =====
-- The terrain that the physics collides against: crates/terrain/src/lib.rs.
pub mod Keyed
pub mod Ranked
pub mod Geo
pub mod Cache
pub mod Evict
pub mod Invariant
pub mod Report
pub mod Reads
pub mod Missing
pub mod Tests
