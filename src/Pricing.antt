-- ===== src/Pricing.antt =====
-- Burnly's own cost calculation, src-tauri/src/application/cost.
pub mod Float
pub mod Snapshot
pub mod Calculator
pub mod GapFill
mod Tests
