-- ===== src/Collectors.antt =====
-- The pure cores of the collectors in src-tauri/src/infrastructure/collectors.
pub mod UsageFold
pub mod Protobuf
mod Tests
