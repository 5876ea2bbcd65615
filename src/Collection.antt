-- ===== src/Collection.antt =====
-- The collection contract of src-tauri/src/application/collection: what a collector is asked for,
-- and what it may answer.
pub mod Request
pub mod Candidate
pub mod Report
mod Tests
