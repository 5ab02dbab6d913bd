-- ===== src/Model.antt =====
-- The data that the components share.
pub mod Enums
pub mod Snapshot
pub mod Config
pub mod Samples
