-- ===== src/Capture.antt =====
-- src-tauri/src/capture: the messages that the capture helper and the application exchange, the
-- coordinator of a capture, and the worker that drives it.
pub mod Protocol
pub mod Coordinator
pub mod Seal
pub mod Committer
pub mod Session
