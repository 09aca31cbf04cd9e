-- ===== src/Iam.antt =====
-- internal/iam: roles and permissions, principals, workspace sessions with two-factor
-- authentication, and API keys.
pub mod Permissions
pub mod Roles
pub mod Principals
pub mod Sessions
pub mod Store
pub mod Commands
pub mod Closing
mod Tests
