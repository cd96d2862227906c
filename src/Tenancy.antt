-- ===== src/Tenancy.antt =====
-- The parts that still use Prisma (apps/api/src/modules/tenancy/tenancy.service.ts,
-- apps/api/src/modules/rbac/rbac.service.ts) and the seed of their tables (apps/api/prisma/seed.ts).
pub mod Directory
pub mod Creation
pub mod Placement
pub mod Roles
pub mod Catalogue
