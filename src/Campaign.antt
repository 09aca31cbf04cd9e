-- ===== src/Campaign.antt =====
-- The campaign context (internal/campaign).
pub mod Domain
pub mod Recipients
pub mod Messages
pub mod Batch
mod Tests
