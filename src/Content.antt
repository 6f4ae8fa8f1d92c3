-- ===== src/Content.antt =====
-- The course content: backend/src/tradeschool/content.
pub mod Schema
pub mod Registry
pub mod Sync
