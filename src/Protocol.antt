-- ===== src/Protocol.antt =====
-- Framing and messages between a session server and its client: src/session/protocol.rs, with
-- `SessionName::new` of src/session.rs.
pub mod Codec
pub mod Frames
pub mod Messages
pub mod Draining
pub mod Pushing
pub mod Chunks
pub mod Wire
pub mod Roundtrip
mod Tests
