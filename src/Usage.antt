-- ===== src/Usage.antt =====
-- The read models of src-tauri/src/application/usage.
pub mod TraySummary
mod Tests
