-- ===== src/Transfer.antt =====
-- The asset transfer workflow (apps/api/src/modules/assets/asset-transfer.service.ts): a request is
-- approved or rejected, completed in one transaction, or cancelled.
pub mod Destination
pub mod Workflow
pub mod Decisions
pub mod Completion
pub mod Calls
pub mod Frame
pub mod Progress
pub mod OnTransfers
pub mod Active
pub mod Steps
pub mod Machine
pub mod Atomicity
pub mod Isolation
pub mod Boundary
pub mod Handover
pub mod Reassignment
pub mod Custody
