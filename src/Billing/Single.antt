-- ===== src/Billing/Single.antt =====
-- A tenant has one subscription at most (system-subscription.service.ts).
use asset_hub.Prelude.{
  ℕ, ⊤, ◌≡◌, refl, Option, none, some, Bool, [], ◌∷◌, ◌==◌, Bool-cases, inl, inr, String,
}
use asset_hub.Prelude.Text.{Text}
use asset_hub.Prelude.Collection.{Distinct}
use asset_hub.Prelude.Action.{Action, Result, ok, err, pure, continue, ◌>>=◌}
use asset_hub.Prelude.Action.Moves.{IsPreorder, Moves, Moves-bind, moves_rules, Moves-modify}
use asset_hub.Models.{Db, Subscription, Entitlement, Value, Object, AuditEvent}
use asset_hub.Database.{
  create_subscription, update_subscription, create_entitlement, update_entitlement,
  create_audit_event,
}
use asset_hub.Prelude.Distinct.{Distinct-update_one, Distinct-append}
use asset_hub.Billing.Distinct.{latest-none, none_of}
use asset_hub.Billing.Subscriptions.{
  latest_subscription, get_tenant, get_plan, require_subscription, audit_subscription, upserted,
  upsert_value, materialize_entitlements, save_subscription, save_current, assign, renew,
  set_status, revoke, set_entitlement, Status, expiry_of, bad_date, assigned_plan, renewed, revoked,
  in_new_status,
}

-- The calls of the service that write.
pub data Licensing : Type 0 where
  give : ℕ → ℕ → String → Option (Option ℕ) → ℕ → Licensing
  extend : ℕ → Option ℕ → Licensing
  mark : ℕ → Status → Licensing
  withdraw : ℕ → Licensing
  allow : ℕ → Text → Value → Licensing

abbrev Keeps : Db → Db → Type 0
Keeps s s' =
    Distinct (λ (x : Subscription). x.tenant_id) s.subscriptions
    → Distinct (λ (x : Subscription). x.tenant_id) s'.subscriptions

Keeps-order : IsPreorder Keeps
Keeps-order = record { same = λ s h. h; then_also = λ s t u f g h. g (f h) }

update_subscription-Keeps :
    (p : Subscription → Bool) (f : Subscription → Subscription)
    → ((x : Subscription) → (f x).tenant_id ≡ x.tenant_id)
    → Moves Keeps (update_subscription p f)
unfolding update_subscription
update_subscription-Keeps p f same =
    Moves-modify _ λ s. Distinct-update_one (λ x. x.tenant_id) p f s.subscriptions same

create_entitlement-Keeps : (e : Entitlement) → Moves Keeps (create_entitlement e)
unfolding create_entitlement
create_entitlement-Keeps e = Moves-modify _ λ s h. h

update_entitlement-Keeps :
    (p : Entitlement → Bool) (f : Entitlement → Entitlement) → Moves Keeps (update_entitlement p f)
unfolding update_entitlement
update_entitlement-Keeps p f = Moves-modify _ λ s h. h

create_audit_event-Keeps : (e : AuditEvent) → Moves Keeps (create_audit_event e)
unfolding create_audit_event
create_audit_event-Keeps e = Moves-modify _ λ s h. h

upsert_value-Keeps : (id : ℕ) (k : Text) (v : Value) → Moves Keeps (upsert_value id k v)
unfolding upsert_value upserted
upsert_value-Keeps id k v =
    search (moves_rules, Keeps-order, create_entitlement-Keeps, update_entitlement-Keeps) depth 10

materialize-Keeps : (id : ℕ) (m : Object) → Moves Keeps (materialize_entitlements id m)
unfolding materialize_entitlements
materialize-Keeps id [] = search (moves_rules, Keeps-order)
materialize-Keeps id ((k, v) ∷ m) =
    Moves-bind Keeps-order _ _ (upsert_value-Keeps id k v) λ _. materialize-Keeps id m

created :
    (tenant_id plan_id : ℕ) (status : String) (expiry : Option ℕ) (new_id now : ℕ) (s : Db)
    → latest_subscription tenant_id s ≡ none
    → Keeps s (save_subscription none tenant_id plan_id status expiry new_id now s).1
unfolding save_subscription create_subscription latest_subscription ◌>>=◌
created tenant_id plan_id status expiry new_id now s h d =
    Distinct-append (λ x. x.tenant_id) s.subscriptions _ d
      (none_of tenant_id s.subscriptions (latest-none _ h))

saved :
    (x : Subscription) (tenant_id plan_id : ℕ) (status : String) (expiry : Option ℕ)
    (new_id now : ℕ)
    → Moves Keeps (save_subscription (some x) tenant_id plan_id status expiry new_id now)
unfolding save_subscription
saved x tenant_id plan_id status expiry new_id now =
    search
      (
        moves_rules,
        Keeps-order,
        update_subscription-Keeps (λ y. y.id == x.id) (assigned_plan plan_id status expiry)
            (λ y. refl),
      )
      depth 10

save_found-Keeps :
    (tenant_id plan_id : ℕ) (status : String) (ends_at : Option (Option ℕ)) (new_id now : ℕ)
    (s : Db) (c : Option Subscription)
    → latest_subscription tenant_id s ≡ c
    → Keeps s (save_subscription c tenant_id plan_id status (expiry_of ends_at) new_id now s).1
save_found-Keeps tenant_id plan_id status ends_at new_id now s none h =
    created tenant_id plan_id status (expiry_of ends_at) new_id now s h
save_found-Keeps tenant_id plan_id status ends_at new_id now s (some x) h =
    (saved x tenant_id plan_id status (expiry_of ends_at) new_id now).at s

continue-pure :
    {A B : Type 0} (f : A → B) (r : Result A × Db) → (continue (λ a. pure (f a)) r).1 ≡ r.1
unfolding pure
continue-pure f (ok a, s) = refl
continue-pure f (err e, s) = refl

save_current-Keeps :
    (tenant_id plan_id : ℕ) (status : String) (ends_at : Option (Option ℕ)) (new_id now : ℕ)
    → Moves Keeps (save_current tenant_id plan_id status ends_at new_id now)
unfolding save_current ◌>>=◌
save_current-Keeps tenant_id plan_id status ends_at new_id now = record {
  at = λ s. elim (Bool-cases (bad_date ends_at)) [
    | inl e ↦ rw e (λ h. h)
    | inr e ↦
        let c = latest_subscription tenant_id s in
        rw
          (
            e,
            continue-pure {A = Subscription} {B = Option Subscription × Subscription} (λ x. (c, x))
                (save_subscription c tenant_id plan_id status (expiry_of ends_at) new_id now s),
          )
          (save_found-Keeps tenant_id plan_id status ends_at new_id now s c refl)
  ];
}

in_status_same :
    (status : Status) (now : ℕ) (x : Subscription)
    → (in_new_status status now x).tenant_id ≡ x.tenant_id
in_status_same Status.active now x = refl
in_status_same Status.trialing now x = refl
in_status_same Status.past_due now x = refl
in_status_same Status.canceled now x = refl

renewed-Keeps :
    (c : Subscription) (d : ℕ) → Moves Keeps (update_subscription (λ y. y.id == c.id) (renewed d))
renewed-Keeps c d = update_subscription-Keeps _ (renewed d) (λ y. refl)

marked-Keeps :
    (c : Subscription) (status : Status) (now : ℕ)
    → Moves Keeps (update_subscription (λ y. y.id == c.id) (in_new_status status now))
marked-Keeps c status now =
    update_subscription-Keeps _ (in_new_status status now) (in_status_same status now)

revoked-Keeps :
    (c : Subscription) (now : ℕ)
    → Moves Keeps (update_subscription (λ y. y.id == c.id) (revoked now))
revoked-Keeps c now = update_subscription-Keeps _ (revoked now) (λ y. refl)

module _ (actor : Option ℕ) (now : ℕ) where
  unfoldable pub license : Licensing → Action Db ⊤
  license (give tenant_id plan_id status ends_at new_id) =
      assign tenant_id plan_id status ends_at actor new_id now >>= λ _. pure tt
  license (extend tenant_id ends_at) = renew tenant_id ends_at actor now >>= λ _. pure tt
  license (mark tenant_id status) = set_status tenant_id status actor now >>= λ _. pure tt
  license (withdraw tenant_id) = revoke tenant_id actor now >>= λ _. pure tt
  license (allow subscription_id key v) = set_entitlement subscription_id key v actor now

  license-Keeps : (c : Licensing) → Moves Keeps (license c)
  unfolding license assign renew set_status revoke set_entitlement require_subscription get_tenant
      get_plan audit_subscription
  license-Keeps (give tenant_id plan_id status ends_at new_id) =
      search
        (moves_rules, Keeps-order, save_current-Keeps, materialize-Keeps, create_audit_event-Keeps)
        depth 16
  license-Keeps (extend tenant_id ends_at) =
      search (moves_rules, Keeps-order, renewed-Keeps, create_audit_event-Keeps) depth 16
  license-Keeps (mark tenant_id status) =
      search (moves_rules, Keeps-order, marked-Keeps, create_audit_event-Keeps) depth 16
  license-Keeps (withdraw tenant_id) =
      search (moves_rules, Keeps-order, revoked-Keeps, create_audit_event-Keeps) depth 16
  license-Keeps (allow subscription_id key v) =
      search (moves_rules, Keeps-order, upsert_value-Keeps, create_audit_event-Keeps) depth 16

  -- No call of the license service gives a tenant a second subscription: if the tenants of all
  -- subscriptions differ, they differ after the call, whether it returns or throws.
  pub license-Single :
      (c : Licensing) (db : Db)
      → Distinct (λ (x : Subscription). x.tenant_id) db.subscriptions
      → Distinct (λ (x : Subscription). x.tenant_id) (license c db).1.subscriptions
  license-Single c db d = (license-Keeps c).at db d
