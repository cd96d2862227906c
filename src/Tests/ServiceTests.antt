-- ===== src/Tests/ServiceTests.antt =====
-- Runs of the organization, user, license and audit services (apps/api/src/modules).
use asset_hub.Prelude.{
  ℕ, ⊤, ◌≡◌, ◌≤◌, ◌++◌, refl, Option, none, some, false, [], ◌∷◌, length, arith,
}
use asset_hub.Prelude.Text.{codes}
use asset_hub.Prelude.Collection.{find_one, All, Distinct}
use asset_hub.Prelude.Action.{Action, pure, ◌>>=◌}
use asset_hub.Models.{Db, User, Session, Plan, Subscription, Plant, Value, plant}
use asset_hub.Database.{update_user, update_sessions}
use asset_hub.Organization.Management.{remove_company, manage}
use asset_hub.Organization.Deletion.{Linked}
use asset_hub.Organization.Linked.{manage-Linked}
use asset_hub.Users.Accounts.{reachable, require_user}
use asset_hub.Users.Credentials.{set_active, revoke_all}
use asset_hub.Users.Deactivation.{LoggedOut, OnlyOf, set_active-deactivates}
use asset_hub.Worker.Notify.{latest}
use asset_hub.Billing.Subscriptions.{is_entitlement, latest_subscription}
use asset_hub.Billing.Overrides.{
  Change as EntitlementChange, plan_value, value_of, override_entitlement, reset_entitlement,
}
use asset_hub.Billing.Reset.{KeepsLicenses, reset-override}
use asset_hub.Billing.Single.{give, license, license-Single}
use asset_hub.Audit.Log.{Event, AuditQuery, record_event, list_events}
use asset_hub.Audit.Redaction.{Shown, Redacted, record_event-Redacted, list_events-scoped}
use asset_hub.Audit.Csv.{escape, read_field, read-escape}
use asset_hub.Tests.Data.{admin, office}

abbrev site : Plant
site = record {
  id = 3;
  company_id = 10;
  business_unit_id = none;
  name = codes "Pune";
  site_type = plant;
}

abbrev built : Db
built = record office { plants = site ∷ [] }

manage-Linked_example : Linked (manage admin (remove_company 10) built).1
manage-Linked_example =
    manage-Linked admin (remove_company 10) built
      (record { plants = (refl, tt); locations = tt; departments = tt })

abbrev open_session : Session
open_session = record {
  id = 1;
  user_id = 7;
  refresh_token_hash = codes "h";
  expires_at = 9000;
  revoked_at = none;
  revoked_reason = none;
}

abbrev signed_in : Db
signed_in = record office { sessions = open_session ∷ [] }

set_active-deactivates_example :
    let db' = (set_active admin 7 false 1000 signed_in).1 in
    (u : User) × (find_one (reachable admin 7) db'.users ≡ some u)
    × (u.is_active ≡ false)
    × LoggedOut 7 db'.sessions
    × OnlyOf 7 signed_in.sessions db'.sessions
unfolding set_active require_user revoke_all update_user update_sessions ◌>>=◌
set_active-deactivates_example = set_active-deactivates admin 7 1000 signed_in _ _ refl

abbrev basic : Plan
basic = record { id = 5; name = codes "Basic"; features = (codes "max_users", Value.num 10) ∷ [] }

abbrev subscribed : Subscription
subscribed = record {
  id = 40;
  tenant_id = 1;
  plan_id = 5;
  status = "active";
  started_at = 0;
  ends_at = none;
  created_at = 0;
}

abbrev licensed : Db
licensed = record office { plans = basic ∷ []; subscriptions = subscribed ∷ [] }

no_history : ℕ → Option ℕ → EntitlementChange → Action Db ⊤
unfolding pure
no_history t a c = pure tt

quiet : KeepsLicenses no_history
unfolding no_history
quiet = record {
  returns = λ t a c s. refl;
  entitlements = λ t a c s. refl;
  subscriptions = λ t a c s. refl;
  plans = λ t a c s. refl;
}

reset-override_example :
    let s1 =
      (override_entitlement no_history 1 (codes "max_users") (Value.num 99) none none licensed).1 in
    let s2 = (reset_entitlement no_history 1 (codes "max_users") none s1).1 in
    value_of (find_one (is_entitlement 40 (codes "max_users")) s2.entitlements)
    ≡ plan_value 5 (codes "max_users") licensed
unfolding latest_subscription latest
reset-override_example =
    reset-override no_history quiet 1 (codes "max_users") (Value.num 99) none none none licensed
      subscribed refl (omega arith)

license-Single_example :
    Distinct
      (λ (x : Subscription). x.tenant_id)
      (license none 1000 (give 1 5 "active" none 41) licensed).1.subscriptions
license-Single_example = license-Single none 1000 (give 1 5 "active" none 41) licensed (tt, tt)

abbrev login_event : Event
login_event = record {
  tenant_id = 1;
  company_id = some 10;
  actor_user_id = some 7;
  action = codes "login";
  target_type = none;
  target_id = none;
  result = none;
  route = none;
  http_method = none;
  status_code = none;
  ip_address = none;
  user_agent = none;
  metadata =
      (codes "Password", Value.text (codes "x")) ∷ (codes "device", Value.text (codes "pc")) ∷ [];
  occurred_at = 0;
}

record_event-Redacted_example : All Redacted (record_event login_event 1000 []).1
record_event-Redacted_example = record_event-Redacted login_event 1000 [] tt

abbrev everything : AuditQuery
everything = record {
  action = none;
  target_type = none;
  actor_user_id = none;
  from = none;
  until = none;
  limit = some 5000;
}

list_events-scoped_example :
    (length (list_events admin everything (login_event ∷ [])) ≤ 1000)
    × All (Shown admin) (list_events admin everything (login_event ∷ []))
list_events-scoped_example = list_events-scoped admin everything (login_event ∷ [])

read-escape_example :
    read_field (escape (codes "a\"b") ++ codes ",c") ≡ some (codes "a\"b", codes ",c")
read-escape_example = read-escape (codes "a\"b") (codes ",c") (λ h. omega (arith, h))
