-- ===== src/Audience.antt =====
-- internal/audience: subscribers, their memberships of lists, double opt-in, and segments.
pub mod Attributes
pub mod Memberships
pub mod Subscribers
pub mod Pages
pub mod Store
pub mod Commands
pub mod Segments
mod Tests
