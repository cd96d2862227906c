-- ===== src/Billing/Overrides.antt =====
-- Overrides of entitlements (apps/api/src/modules/billing/system-entitlement.controller.ts). What
-- `recordChange` writes is a parameter, since its service is not in the repository.
use asset_hub.Prelude.{ℕ, ⊤, Option, none, some, Bool, true, false, [], ◌∷◌, ◌==◌, if◌then◌else◌}
use asset_hub.Prelude.Text.{Text, text_eq, codes, trimmed}
use asset_hub.Prelude.Collection.{find_one}
use asset_hub.Prelude.Action.{Action, pure, gets, or_raise, not_found, ◌>>=◌, ◌>>◌}
use asset_hub.Models.{Db, Subscription, Entitlement, Source, from_plan, override, Value, Object}
use asset_hub.Database.{update_entitlement, delete_entitlement}
use asset_hub.Billing.Subscriptions.{is_entitlement, latest_subscription, upserted}

abbrev pub feature : Text → Object → Option Value
feature k [] = none
feature k ((j, v) ∷ m) = if text_eq j k then some v else feature k m

-- `(plan?.features)?.[key]`
unfoldable pub plan_value : ℕ → Text → Db → Option Value
plan_value plan_id key db = elim (find_one (λ p. p.id == plan_id) db.plans) [
  | none ↦ none
  | some p ↦ feature key p.features
]

abbrev pub is_override : Option Entitlement → Bool
is_override none = false
is_override (some e) = elim e.source [ override ↦ true | from_plan ↦ false ]

abbrev pub set_source : Value → Source → Entitlement → Entitlement
set_source v s e = record e { value = v; source = s }

pub record Change : Type 0 where
  pub key : Text
  pub previous : Option Value
  pub next : Option Value
  pub source : Source
  pub reason : Option Text
  pub subscription_id : ℕ

abbrev pub value_of : Option Entitlement → Option Value
value_of none = none
value_of (some e) = some e.value

abbrev pub value_or : Option Entitlement → Option Value → Option Value
value_or none v = v
value_or (some e) v = some e.value

unfoldable pub require_license : ℕ → Action Db Subscription
require_license tenant_id = do
  or_raise (← gets (latest_subscription tenant_id)) (not_found "Tenant subscription not found")

-- The write of `reset`, by the value that the plan gives.
unfoldable pub reset_write : ℕ → Text → Option Value → Action Db ⊤
reset_write subscription_id key none = delete_entitlement (is_entitlement subscription_id key)
reset_write subscription_id key (some v) =
    update_entitlement (is_entitlement subscription_id key) (set_source v from_plan)

module _ (record_change : ℕ → Option ℕ → Change → Action Db ⊤) where
  unfoldable pub override_entitlement : ℕ → Text → Value → Option Text → Option ℕ → Action Db ⊤
  override_entitlement tenant_id key v reason actor = do
    subscription ← require_license tenant_id
    previous ← gets λ db. find_one (is_entitlement subscription.id key) db.entitlements
    default ← gets (plan_value subscription.plan_id key)
    es ← gets λ db. db.entitlements
    upserted subscription.id key v override (set_source v override) es
    record_change tenant_id actor (record {
      key = key;
      previous = value_or previous default;
      next = some v;
      source = override;
      reason = trimmed reason;
      subscription_id = subscription.id;
    })

  unfoldable pub reset_override :
      ℕ → Text → Option ℕ → Subscription → Option Entitlement → Option Value → Action Db ⊤
  reset_override tenant_id key actor subscription previous default = do
    reset_write subscription.id key default
    record_change tenant_id actor (record {
      key = key;
      previous = value_of previous;
      next = default;
      source = from_plan;
      reason = some (codes "Reset tenant override to plan default");
      subscription_id = subscription.id;
    })

  unfoldable pub reset_entitlement : ℕ → Text → Option ℕ → Action Db ⊤
  reset_entitlement tenant_id key actor = do
    subscription ← require_license tenant_id
    previous ← gets λ db. find_one (is_entitlement subscription.id key) db.entitlements
    default ← gets (plan_value subscription.plan_id key)
    if is_override previous
        then reset_override tenant_id key actor subscription previous default
        else pure tt
