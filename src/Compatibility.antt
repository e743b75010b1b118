-- ===== src/Compatibility.antt =====
-- backend/internal/compatibility: system versions and the verdict on an artifact for a host.
pub mod Version
pub mod Engine
mod Tests
