-- ===== src/Catalog.antt =====
-- backend/internal/catalog: rows of published artifacts, the choice of the recommended one, the
-- versions that a page and the manifest show, and the counting of downloads and views.
pub mod Row
pub mod Selection
pub mod Telemetry
pub mod Versions
pub mod Manifest
mod Samples
