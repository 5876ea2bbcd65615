-- ===== src/Domain.antt =====
-- The value types of src-tauri/src/domain: token usage, cost, sources, and record identity.
pub mod TokenUsage
pub mod Cost
pub mod Source
pub mod Identity
mod Tests
