-- ===== src/Worker.antt =====
-- The maintenance worker (apps/api/src/queue/worker.main.ts): the license notifications of a tenant.
pub mod Window
pub mod Notify
pub mod Job
pub mod Once
