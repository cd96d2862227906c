-- ===== src/Organization.antt =====
-- The organization of a tenant: companies, their sites, the locations of a site and the departments
-- of a location (apps/api/src/modules/tenancy/organization-management.service.ts).
pub mod Management
pub mod Deletion
pub mod Linked
