-- ===== src/Manifest.antt =====
-- internal/manifest: the revisions that are kept.
pub mod Record
pub mod Validity
pub mod Counts
pub mod Index
pub mod Refs
pub mod Kept
