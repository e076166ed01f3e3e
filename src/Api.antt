-- ===== src/Api.antt =====
-- src-tauri/src/api: the requests of the local API that change something.
pub mod Idempotency
pub mod Cursor
