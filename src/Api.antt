-- ===== src/Api.antt =====
-- The controllers of the API (apps/api/src/modules/*/*.controller.ts): each route, with its guards, the
-- permission that it asks for, the check of its body, and the service that answers it.
pub mod World
pub mod Users
pub mod Organization
pub mod Directory
pub mod Assets
pub mod Reads
pub mod Server
