-- ===== src/Repo.antt =====
-- The backup repository (internal/repo): snapshots, retention, garbage collection.
pub mod Manifest
pub mod Retention
pub mod Index
pub mod Disk
pub mod Snapshots
pub mod Lock
pub mod Trash
pub mod Gc
pub mod Writer
pub mod Stored
