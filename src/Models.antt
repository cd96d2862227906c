-- ===== src/Models.antt =====
-- The documents of the MongoDB collections (apps/api/src/models/*.ts) and the database that holds
-- them. Document ids are opaque and only compared, so they are numbers; times are milliseconds.
-- An optional field is `none` where it is undefined, null or, for an id, the empty string: the
-- services test these by their truth value alone.
mod Assets
mod Tenancy
mod Users
mod Billing
pub use Assets.*
pub use Tenancy.*
pub use Users.*
pub use Billing.*
use asset_hub.Prelude.{Bool, ℕ, List}

-- `MongooseDatabaseService`: one list for each collection that the services use.
pub record Db : Type 0 where
  pub tenants : List Tenant
  pub companies : List Company
  pub plants : List Plant
  pub business_units : List BusinessUnit
  pub locations : List Location
  pub departments : List Department
  pub users : List User
  pub roles : List Role
  pub sessions : List Session
  pub assets : List Asset
  pub assignments : List AssetAssignment
  pub transfers : List AssetTransfer
  pub asset_audit_events : List AssetAuditEvent
  pub audit_events : List AuditEvent
  pub plans : List Plan
  pub subscriptions : List Subscription
  pub entitlements : List Entitlement
  -- Whether the database refuses to write events at the time, which no operation changes.
  pub refuses_events : Bool
