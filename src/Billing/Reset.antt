-- ===== src/Billing/Reset.antt =====
-- A reset undoes an override (system-entitlement.controller.ts).
use asset_hub.Prelude.{
  ℕ, ⊤, ◌≡◌, ◌≤◌, ◌∙◌, refl, ap, Option, none, some, Bool, true, List, [], ◌∷◌, ◌==◌, arith,
  Option-cases, inl, inr,
}
use asset_hub.Prelude.Text.{Text, text_eq_iff}
use asset_hub.Prelude.Collection.{find_all, find_one, find_one-append_none, count_where}
use asset_hub.Prelude.Action.{Action, ok, ◌>>=◌}
use asset_hub.Models.{Db, Subscription, Entitlement, from_plan, override, Value}
use asset_hub.Database.{create_entitlement, update_entitlement, delete_entitlement}
use asset_hub.Worker.Notify.{latest}
use asset_hub.Billing.Unique.{find-update, count-update, find-delete, count-append}
use asset_hub.Billing.Subscriptions.{is_entitlement, latest_subscription, upserted}
use asset_hub.Billing.Overrides.{
  is_override, Change, plan_value, value_of, set_source, require_license, reset_write,
  override_entitlement, reset_override, reset_entitlement,
}

-- The history of changes is kept apart from what the changes are about.
pub record KeepsLicenses (record_change : ℕ → Option ℕ → Change → Action Db ⊤) : Type 0 where
  pub returns : (t : ℕ) (a : Option ℕ) (c : Change) (s : Db) → (record_change t a c s).0 ≡ ok tt
  pub entitlements :
      (t : ℕ) (a : Option ℕ) (c : Change) (s : Db)
      → (record_change t a c s).1.entitlements ≡ s.entitlements
  pub subscriptions :
      (t : ℕ) (a : Option ℕ) (c : Change) (s : Db)
      → (record_change t a c s).1.subscriptions ≡ s.subscriptions
  pub plans :
      (t : ℕ) (a : Option ℕ) (c : Change) (s : Db) → (record_change t a c s).1.plans ≡ s.plans

module _ (id : ℕ) (key : Text) where
  abbrev about : Entitlement → Bool
  about = is_entitlement id key

  -- The override that is in force.
  abbrev Overridden : Value → List Entitlement → Type 0
  Overridden v es =
      (e : Entitlement) × (find_one about es ≡ some e)
      × (e.source ≡ override)
      × (count_where about es ≤ 1)

  upserted-Overridden :
      (v : Value) (s : Db)
      → count_where about s.entitlements ≤ 1
      → ((upserted id key v override (set_source v override) s.entitlements s).0 ≡ ok tt)
        × Overridden v
            (upserted id key v override (set_source v override) s.entitlements s).1.entitlements
        × ((upserted id key v override (set_source v override) s.entitlements s).1.subscriptions
            ≡ s.subscriptions)
        × ((upserted id key v override (set_source v override) s.entitlements s).1.plans ≡ s.plans)
  unfolding upserted create_entitlement update_entitlement ◌>>=◌
  upserted-Overridden v s one = elim (Option-cases (find_one about s.entitlements)) [
    | inl e ↦
        let new : Entitlement = record {
          subscription_id = id;
          key = key;
          value = v;
          source = override;
        } in
        let it : about new ≡ true = ground (arith, text_eq_iff key key) in
        rw e (
          refl,
          (
            new,
            find_one-append_none about s.entitlements (new ∷ []) e ∙ rw it refl,
            refl,
            count-append about s.entitlements new e it,
          ),
          refl,
          refl,
        )
    | inr (x, e) ↦ rw e (
      refl,
      (
        set_source v override x,
        find-update about (set_source v override) (λ y k. k) s.entitlements x e,
        refl,
        rw (count-update about (set_source v override) (λ y k. k) s.entitlements) one,
      ),
      refl,
      refl,
    )
  ]

  reset_write-default :
      (d : Option Value) (v : Value) (s : Db)
      → Overridden v s.entitlements
      → value_of (find_one about (reset_write id key d s).1.entitlements) ≡ d
  unfolding reset_write delete_entitlement update_entitlement ◌>>=◌
  reset_write-default none v s (e, found, source, one) =
      rw (find-delete about s.entitlements one) refl
  reset_write-default (some d) v s (e, found, source, one) =
      rw (find-update about (set_source d from_plan) (λ y k. k) s.entitlements e found) refl

latest-same :
    (tenant_id : ℕ) (s t : Db)
    → s.subscriptions ≡ t.subscriptions
    → latest_subscription tenant_id s ≡ latest_subscription tenant_id t
unfolding latest_subscription
latest-same tenant_id s t h = ap (λ xs. latest (find_all (λ x. x.tenant_id == tenant_id) xs)) h

plan_value-same :
    (plan_id : ℕ) (key : Text) (s t : Db)
    → s.plans ≡ t.plans
    → plan_value plan_id key s ≡ plan_value plan_id key t
unfolding plan_value
plan_value-same plan_id key s t h = ground (arith, h)

reset_write-ok :
    (id : ℕ) (key : Text) (d : Option Value) (s : Db) → (reset_write id key d s).0 ≡ ok tt
unfolding reset_write delete_entitlement update_entitlement ◌>>=◌
reset_write-ok id key none s = refl
reset_write-ok id key (some v) s = refl

module _ (record_change : ℕ → Option ℕ → Change → Action Db ⊤)
    (quiet : KeepsLicenses record_change) where
  override-leaves :
      (tenant_id : ℕ) (key : Text) (v : Value) (reason : Option Text) (actor : Option ℕ) (s : Db)
      (sub : Subscription)
      → latest_subscription tenant_id s ≡ some sub
      → count_where (is_entitlement sub.id key) s.entitlements ≤ 1
      → let s' = (override_entitlement record_change tenant_id key v reason actor s).1 in
        Overridden sub.id key v s'.entitlements
        × (s'.subscriptions ≡ s.subscriptions)
        × (s'.plans ≡ s.plans)
  unfolding override_entitlement require_license ◌>>=◌
  override-leaves tenant_id key v reason actor s sub current one =
      let (returned, overridden, subs, plans) = upserted-Overridden sub.id key v s one in
      let u = (upserted sub.id key v override (set_source v override) s.entitlements s).1 in
      let ran : upserted sub.id key v override (set_source v override) s.entitlements s
          ≡ (ok tt, u) =
        ap (λ r. (r, u)) returned in
      rw (current, ran, quiet.entitlements, quiet.subscriptions, quiet.plans)
        (overridden, subs, plans)

  reset-default :
      (tenant_id : ℕ) (key : Text) (v : Value) (actor : Option ℕ) (s : Db) (sub : Subscription)
      (d : Option Value)
      → latest_subscription tenant_id s ≡ some sub
      → Overridden sub.id key v s.entitlements
      → plan_value sub.plan_id key s ≡ d
      → value_of (
          find_one
            (is_entitlement sub.id key)
            (reset_entitlement record_change tenant_id key actor s).1.entitlements)
        ≡ d
  unfolding reset_entitlement reset_override require_license ◌>>=◌
  reset-default tenant_id key v actor s sub d current over plan =
      let held : is_override (find_one (is_entitlement sub.id key) s.entitlements) ≡ true =
        ground (arith, over.1, over.2) in
      let u = (reset_write sub.id key d s).1 in
      let ran : reset_write sub.id key d s ≡ (ok tt, u) =
        ap (λ r. (r, u)) (reset_write-ok sub.id key d s) in
      rw (current, held, plan, ran, quiet.entitlements) (reset_write-default sub.id key d v s over)

  -- A reset undoes an override: after an override and then a reset of the same key, the entitlement
  -- has exactly the value that the tenant's plan gives the key, and it is gone where the plan gives
  -- none. The tenant has a subscription, the unique index holds for the entitlement, and the history
  -- of changes leaves licenses alone.
  pub reset-override :
      (tenant_id : ℕ) (key : Text) (v : Value) (reason : Option Text) (actor actor' : Option ℕ)
      (s : Db) (sub : Subscription)
      → latest_subscription tenant_id s ≡ some sub
      → count_where (is_entitlement sub.id key) s.entitlements ≤ 1
      → let s1 = (override_entitlement record_change tenant_id key v reason actor s).1 in
        let s2 = (reset_entitlement record_change tenant_id key actor' s1).1 in
        value_of (find_one (is_entitlement sub.id key) s2.entitlements)
        ≡ plan_value sub.plan_id key s
  unfolding reset_entitlement reset_override require_license ◌>>=◌
  reset-override tenant_id key v reason actor actor' s sub current one =
      let s1 = (override_entitlement record_change tenant_id key v reason actor s).1 in
      let (overridden, subs, plans) =
        override-leaves tenant_id key v reason actor s sub current one in
      reset-default tenant_id key v actor' s1 sub (plan_value sub.plan_id key s)
        (latest-same tenant_id s1 s subs ∙ current) overridden
        (plan_value-same sub.plan_id key s1 s plans)
