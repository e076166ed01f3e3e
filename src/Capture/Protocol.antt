-- ===== src/Capture/Protocol.antt =====
-- src-tauri/src/capture/protocol.rs. The JSON form of a header is another package's: a pair of
-- functions that the codec takes.
pub mod Headers
pub mod Validate
pub mod Codec
pub mod Sequence
pub mod RoundTrip
mod Tests
