-- ===== src/Database.antt =====
-- The writes of `MongooseDatabaseService`, one for each collection: `updateOne` (also the write of
-- `findOneAndUpdate`), `updateMany`, `create` and `deleteOne`. Mongoose leaves a field alone that
-- an update sets to undefined.
use asset_hub.Prelude.{⊤, Bool, [], ◌∷◌, ◌++◌}
use asset_hub.Prelude.Collection.{update_one, update_many, delete_one}
use asset_hub.Prelude.Action.{Action, modify}
use asset_hub.Models.{
  Db, Asset, AssetAssignment, AssetTransfer, AssetAuditEvent, AuditEvent, User, Session,
  Subscription, Entitlement, Tenant, Company, Plant, Location, Department,
}

unfoldable pub update_transfer :
    (AssetTransfer → Bool) → (AssetTransfer → AssetTransfer) → Action Db ⊤
update_transfer p f = modify λ db. record db { transfers = update_one p f db.transfers }

unfoldable pub create_transfer : AssetTransfer → Action Db ⊤
create_transfer t = modify λ db. record db { transfers = db.transfers ++ t ∷ [] }

unfoldable pub update_asset : (Asset → Bool) → (Asset → Asset) → Action Db ⊤
update_asset p f = modify λ db. record db { assets = update_one p f db.assets }

unfoldable pub update_assignment :
    (AssetAssignment → Bool) → (AssetAssignment → AssetAssignment) → Action Db ⊤
update_assignment p f = modify λ db. record db { assignments = update_one p f db.assignments }

unfoldable pub create_assignment : AssetAssignment → Action Db ⊤
create_assignment a = modify λ db. record db { assignments = db.assignments ++ a ∷ [] }

unfoldable pub create_asset_audit_event : AssetAuditEvent → Action Db ⊤
create_asset_audit_event e =
    modify λ db. record db { asset_audit_events = db.asset_audit_events ++ e ∷ [] }

unfoldable pub create_audit_event : AuditEvent → Action Db ⊤
create_audit_event e = modify λ db. record db { audit_events = db.audit_events ++ e ∷ [] }

unfoldable pub create_user : User → Action Db ⊤
create_user u = modify λ db. record db { users = db.users ++ u ∷ [] }

unfoldable pub update_user : (User → Bool) → (User → User) → Action Db ⊤
update_user p f = modify λ db. record db { users = update_one p f db.users }

unfoldable pub update_sessions : (Session → Bool) → (Session → Session) → Action Db ⊤
update_sessions p f = modify λ db. record db { sessions = update_many p f db.sessions }

unfoldable pub update_session : (Session → Bool) → (Session → Session) → Action Db ⊤
update_session p f = modify λ db. record db { sessions = update_one p f db.sessions }

unfoldable pub create_subscription : Subscription → Action Db ⊤
create_subscription x = modify λ db. record db { subscriptions = db.subscriptions ++ x ∷ [] }

unfoldable pub update_subscription :
    (Subscription → Bool) → (Subscription → Subscription) → Action Db ⊤
update_subscription p f = modify λ db. record db { subscriptions = update_one p f db.subscriptions }

unfoldable pub create_entitlement : Entitlement → Action Db ⊤
create_entitlement x = modify λ db. record db { entitlements = db.entitlements ++ x ∷ [] }

unfoldable pub update_entitlement : (Entitlement → Bool) → (Entitlement → Entitlement) → Action Db ⊤
update_entitlement p f = modify λ db. record db { entitlements = update_one p f db.entitlements }

unfoldable pub delete_entitlement : (Entitlement → Bool) → Action Db ⊤
delete_entitlement p = modify λ db. record db { entitlements = delete_one p db.entitlements }

unfoldable pub update_tenant : (Tenant → Bool) → (Tenant → Tenant) → Action Db ⊤
update_tenant p f = modify λ db. record db { tenants = update_one p f db.tenants }

unfoldable pub update_company : (Company → Bool) → (Company → Company) → Action Db ⊤
update_company p f = modify λ db. record db { companies = update_one p f db.companies }

unfoldable pub delete_company : (Company → Bool) → Action Db ⊤
delete_company p = modify λ db. record db { companies = delete_one p db.companies }

unfoldable pub update_plant : (Plant → Bool) → (Plant → Plant) → Action Db ⊤
update_plant p f = modify λ db. record db { plants = update_one p f db.plants }

unfoldable pub delete_plant : (Plant → Bool) → Action Db ⊤
delete_plant p = modify λ db. record db { plants = delete_one p db.plants }

unfoldable pub update_location : (Location → Bool) → (Location → Location) → Action Db ⊤
update_location p f = modify λ db. record db { locations = update_one p f db.locations }

unfoldable pub delete_location : (Location → Bool) → Action Db ⊤
delete_location p = modify λ db. record db { locations = delete_one p db.locations }

unfoldable pub update_department : (Department → Bool) → (Department → Department) → Action Db ⊤
update_department p f = modify λ db. record db { departments = update_one p f db.departments }

unfoldable pub delete_department : (Department → Bool) → Action Db ⊤
delete_department p = modify λ db. record db { departments = delete_one p db.departments }
