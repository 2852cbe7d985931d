-- ===== src/Server.antt =====
-- crates/websocket/src/server.rs: what one connected browser is sent, and when it is given up.
pub mod Feed
pub mod FeedLaws
pub mod Ends
pub mod Tests
