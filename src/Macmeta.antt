-- ===== src/Macmeta.antt =====
-- backend/internal/macmeta: what an uploaded file says about itself.
pub mod Values
pub mod Bytes
pub mod Plist
pub mod Macho
pub mod Png
pub mod Metadata
