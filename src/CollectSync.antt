-- ===== src/CollectSync.antt =====
-- Cloud upload of daily usage, src-tauri/src/application/collect_sync.
pub mod TextSet
pub mod Scope
pub mod Wire
pub mod Batch
pub mod Store
pub mod Service
pub mod Lifecycle
mod Tests
