-- ===== src/Billing/Subscriptions.antt =====
-- Subscriptions (apps/api/src/modules/billing/system-subscription.service.ts). Ids are valid by their
-- type; a date is what `new Date` makes of a text, `none` where it is not a date.
use asset_hub.Prelude.{
  ℕ, ⊤, Option, none, some, Bool, true, false, ◌&&◌, List, [], ◌∷◌, ◌==◌, given, or_else, String,
  if◌then◌else◌,
}
use asset_hub.Prelude.Text.{Text, text_eq, codes, trim}
use asset_hub.Prelude.Collection.{find_one, find_all}
use asset_hub.Prelude.Action.{
  Action, pure, gets, or_raise, raise_if, bad_request, not_found, ◌>>=◌, ◌>>◌,
}
use text.Mathlib.Text.{◌==◌ as str_eq}
use asset_hub.Models.{Db, Plan, Subscription, Entitlement, Source, from_plan, Value, Object, Tenant}
use asset_hub.Database.{
  create_subscription, update_subscription, create_entitlement, update_entitlement,
  create_audit_event,
}
use asset_hub.Worker.Notify.{latest}

-- `findOne({ tenantId }).sort({ createdAt: -1 })`
unfoldable pub latest_subscription : ℕ → Db → Option Subscription
unfolding latest
latest_subscription tenant_id db =
    latest (find_all (λ x. x.tenant_id == tenant_id) db.subscriptions)

unfoldable pub get_tenant : ℕ → Action Db Tenant
get_tenant tenant_id = do
  or_raise (← gets λ db. find_one (λ t. t.id == tenant_id) db.tenants)
      (not_found "Tenant not found")

unfoldable pub get_plan : ℕ → Action Db Plan
get_plan plan_id = do
  or_raise (← gets λ db. find_one (λ p. p.id == plan_id) db.plans) (not_found "Plan not found")

unfoldable pub audit_subscription : ℕ → String → ℕ → Object → Option ℕ → ℕ → Action Db ⊤
audit_subscription tenant_id action target_id metadata actor now = create_audit_event (record {
  tenant_id = tenant_id;
  company_id = none;
  actor_user_id = actor;
  action = action;
  target_type = "subscription";
  target_id = target_id;
  metadata = metadata;
  occurred_at = now;
})

abbrev pub is_entitlement : ℕ → Text → Entitlement → Bool
is_entitlement subscription_id key e = e.subscription_id == subscription_id && text_eq e.key key

abbrev pub set_value : Value → Entitlement → Entitlement
set_value v e = record e { value = v }

unfoldable pub upserted :
    ℕ → Text → Value → Source → (Entitlement → Entitlement) → List Entitlement → Action Db ⊤
upserted subscription_id key v source f es =
    if given (find_one (is_entitlement subscription_id key) es)
    then update_entitlement (is_entitlement subscription_id key) f
    else create_entitlement
        (record { subscription_id = subscription_id; key = key; value = v; source = source })

-- `{ $set: { value } }, { upsert: true }`: a new entitlement has the default source.
unfoldable pub upsert_value : ℕ → Text → Value → Action Db ⊤
upsert_value subscription_id key v = do
  es ← gets λ db. db.entitlements
  upserted subscription_id key v from_plan (set_value v) es

-- `materializeEntitlements`; the keys of an object differ, so the order does not matter.
unfoldable pub materialize_entitlements : ℕ → Object → Action Db ⊤
materialize_entitlements subscription_id [] = pure tt
materialize_entitlements subscription_id ((key, v) ∷ features) = do
  upsert_value subscription_id key v
  materialize_entitlements subscription_id features

abbrev date_value : Option ℕ → Value
date_value none = Value.null
date_value (some t) = Value.num t

abbrev is_revoked : Option Subscription → Bool
is_revoked none = false
is_revoked (some x) = str_eq x.status "revoked"

abbrev pub assigned_action : Option Subscription → String
assigned_action current =
    if is_revoked current
    then "subscription.reactivated"
    else if given current
    then "subscription.updated"
    else "subscription.created"

abbrev pub assigned_plan : ℕ → String → Option ℕ → Subscription → Subscription
assigned_plan plan_id status expiry x = record x {
  plan_id = plan_id;
  status = status;
  ends_at = or_else expiry x.ends_at;
}

abbrev pub new_subscription : ℕ → ℕ → ℕ → String → Option ℕ → ℕ → Subscription
new_subscription id tenant_id plan_id status expiry now = record {
  id = id;
  tenant_id = tenant_id;
  plan_id = plan_id;
  status = status;
  started_at = now;
  ends_at = expiry;
  created_at = now;
}

-- The current subscription is changed, or the first one is created.
unfoldable pub save_subscription :
    Option Subscription → ℕ → ℕ → String → Option ℕ → ℕ → ℕ → Action Db Subscription
save_subscription none tenant_id plan_id status expiry new_id now = do
  create_subscription (new_subscription new_id tenant_id plan_id status expiry now)
  pure (new_subscription new_id tenant_id plan_id status expiry now)
save_subscription (some current) tenant_id plan_id status expiry new_id now = do
  update_subscription (λ x. x.id == current.id) (assigned_plan plan_id status expiry)
  pure (assigned_plan plan_id status expiry current)

-- `assign`: `ends_at` is the given date, `some none` where it is not one.
abbrev pub bad_date : Option (Option ℕ) → Bool
bad_date (some none) = true
bad_date _ = false

abbrev pub expiry_of : Option (Option ℕ) → Option ℕ
expiry_of none = none
expiry_of (some d) = d

-- The part of `assign` that reads the current subscription and saves: both are returned.
unfoldable pub save_current :
    ℕ → ℕ → String → Option (Option ℕ) → ℕ → ℕ → Action Db (Option Subscription × Subscription)
save_current tenant_id plan_id status ends_at new_id now = do
  current ← gets (latest_subscription tenant_id)
  raise_if (bad_date ends_at) (bad_request "Invalid endsAt")
  subscription ← save_subscription current tenant_id plan_id status (expiry_of ends_at) new_id now
  pure (current, subscription)

unfoldable pub assign :
    ℕ → ℕ → String → Option (Option ℕ) → Option ℕ → ℕ → ℕ → Action Db Subscription
assign tenant_id plan_id status ends_at actor new_id now = do
  get_tenant tenant_id
  plan ← get_plan plan_id
  saved ← save_current tenant_id plan.id status ends_at new_id now
  let subscription = saved.1
  materialize_entitlements subscription.id plan.features
  audit_subscription tenant_id (assigned_action saved.0) subscription.id
      ((codes "planId", Value.id plan.id)
        ∷ (codes "status", Value.str status)
        ∷ (codes "endsAt", date_value subscription.ends_at)
        ∷ [])
      actor now
  pure subscription

-- The current subscription of a tenant that exists, or the throw.
unfoldable pub require_subscription : ℕ → Action Db Subscription
require_subscription tenant_id = do
  get_tenant tenant_id
  or_raise (← gets (latest_subscription tenant_id)) (not_found "No subscription found for tenant")

abbrev pub renewed : ℕ → Subscription → Subscription
renewed expiry x = record x { status = "active"; ends_at = some expiry }

unfoldable pub renew : ℕ → Option ℕ → Option ℕ → ℕ → Action Db Subscription
renew tenant_id ends_at actor now = do
  get_tenant tenant_id
  expiry ← or_raise ends_at (bad_request "Invalid renewal date")
  current ←
      or_raise (← gets (latest_subscription tenant_id))
        (not_found "No subscription found for tenant")
  update_subscription (λ x. x.id == current.id) (renewed expiry)
  audit_subscription tenant_id
      (if is_revoked (some current) then "subscription.reactivated" else "subscription.renewed")
      current.id ((codes "endsAt", Value.num expiry) ∷ []) actor now
  pure (renewed expiry current)

-- `'active' | 'trialing' | 'past_due' | 'canceled'`
pub data Status : Type 0 where
  active trialing past_due canceled : Status

abbrev pub status_name : Status → String
status_name active = "active"
status_name trialing = "trialing"
status_name past_due = "past_due"
status_name canceled = "canceled"

abbrev status_action : Status → String
status_action active = "subscription.active"
status_action trialing = "subscription.trialing"
status_action past_due = "subscription.past_due"
status_action canceled = "subscription.canceled"

abbrev pub in_new_status : Status → ℕ → Subscription → Subscription
in_new_status canceled now x = record x { status = "canceled"; ends_at = some now }
in_new_status s now x = record x { status = status_name s }

unfoldable pub set_status : ℕ → Status → Option ℕ → ℕ → Action Db Subscription
set_status tenant_id status actor now = do
  current ← require_subscription tenant_id
  update_subscription (λ x. x.id == current.id) (in_new_status status now)
  audit_subscription tenant_id (status_action status) current.id
      ((codes "status", Value.str (status_name status)) ∷ []) actor now
  pure (in_new_status status now current)

abbrev pub revoked : ℕ → Subscription → Subscription
revoked now x = record x { status = "revoked"; ends_at = some now }

unfoldable pub revoke : ℕ → Option ℕ → ℕ → Action Db Subscription
revoke tenant_id actor now = do
  current ← require_subscription tenant_id
  update_subscription (λ x. x.id == current.id) (revoked now)
  audit_subscription tenant_id "subscription.revoked" current.id
      ((codes "planId", Value.id current.plan_id) ∷ []) actor now
  pure (revoked now current)

unfoldable pub set_entitlement : ℕ → Text → Value → Option ℕ → ℕ → Action Db ⊤
set_entitlement subscription_id key v actor now = do
  subscription ←
      or_raise (← gets λ db. find_one (λ x. x.id == subscription_id) db.subscriptions)
        (not_found "Subscription not found")
  raise_if (text_eq (trim key) []) (bad_request "Entitlement key is required")
  upsert_value subscription_id (trim key) v
  audit_subscription subscription.tenant_id "subscription.entitlement_updated" subscription_id
      ((codes "key", Value.text (trim key)) ∷ (codes "value", v) ∷ []) actor now
