-- ===== src/Restore.antt =====
-- The parts of internal/restore.
pub mod Selection
pub mod Calls
pub mod Files
pub mod Run
