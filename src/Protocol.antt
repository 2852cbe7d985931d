-- ===== src/Protocol.antt =====
-- The binary messages of crates/websocket/src/protocol.rs: their encoders and decoders.
pub mod Bytes
pub mod Errors
pub mod State
pub mod StateLaws
pub mod Commands
pub mod CommandLaws
pub mod Nsh
pub mod NshLaws
pub mod Messages
pub mod Outgoing
pub mod OutgoingLaws
pub mod Tiles
pub mod Chunks
pub mod Promise
pub mod TileLaws
pub mod TileRoundtrip
pub mod Incoming
pub mod IncomingLaws
pub mod Tests
