-- ===== src/System.antt =====
-- The platform's own administration (apps/api/src/modules/system/system-admin.service.ts): tenants and
-- their suspension, the roles of platform users, and the usage of quotas.
pub mod Tenants
pub mod PlatformRoles
pub mod Quota
pub mod Usage
pub mod Suspension
pub mod Console
