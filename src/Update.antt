-- ===== src/Update.antt =====
-- src/update.rs: which release is newer, and how a verified artifact is put in place.
pub mod Versions
pub mod Order
pub mod Install
pub mod Swap
pub mod Tests
