-- ===== src/Billing.antt =====
-- Licensing (apps/api/src/modules/billing): the subscription of a tenant, and the entitlements that
-- come from its plan or from an override.
pub mod Subscriptions
pub mod Overrides
pub mod Unique
pub mod Reset
pub mod Distinct
pub mod Single
