-- ===== src/Auth.antt =====
-- Authentication (apps/api/src/modules/auth): password login, refresh with rotation, sessions, and
-- the users that an external identity becomes.
pub mod Store
pub mod Sessions
pub mod Login
pub mod Provisioning
pub mod Rotation
pub mod Outcomes
pub mod Grants
