-- ===== src/Access.antt =====
-- Who may see what: the guards that run before a route (common/guards/tenant-context.guard.ts,
-- common/guards/rbac.guard.ts) and the filter that the services add to their queries
-- (common/tenant-scoped.repository.ts).
pub mod Scope
pub mod Guards
