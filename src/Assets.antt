-- ===== src/Assets.antt =====
-- The asset register (apps/api/src/modules/assets): creation with numbering, transitions, search, and
-- the timeline of an asset.
pub mod Registry
pub mod Ownership
pub mod Numbering
pub mod Sequence
pub mod Search
pub mod Timeline
pub mod Chronology
