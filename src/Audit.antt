-- ===== src/Audit.antt =====
-- The audit log (apps/api/src/modules/audit/audit.service.ts).
pub mod Log
pub mod Csv
pub mod Redaction
pub mod Naming
pub mod Interceptor
pub mod Recording
pub mod Routes
