-- ===== src/Storage.antt =====
-- backend/internal/storage/local.go: files kept under one root directory.
pub mod Paths
pub mod Disk
