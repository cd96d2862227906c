-- ===== src/Users.antt =====
-- The users of a tenant, as its administrators manage them
-- (apps/api/src/modules/users/users.service.ts).
pub mod Accounts
pub mod Credentials
pub mod Deactivation
pub mod Scoped
