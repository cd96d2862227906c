-- ===== src/Tests/WorkerTests.antt =====
-- Runs of the maintenance worker (apps/api/src/queue/worker.main.ts).
use asset_hub.Prelude.{
  ℕ, ◌≡◌, ◌≤◌, ◌+◌, ◌*◌, ◌↔◌, refl, Option, none, some, Bool, true, [], ◌∷◌, arith,
}
use asset_hub.Prelude.Text.{codes, decimal, decimal_from}
use asset_hub.Prelude.Action.{ok, ◌>>=◌}
use asset_hub.Models.{Db, User, Role, Subscription}
use asset_hub.Database.{create_audit_event}
use asset_hub.Worker.Window.{
  IsWindow, day_ms, warning_days, find_window, days_remaining, find_window_least,
  live_license_window,
}
use asset_hub.Worker.Notify.{
  nothing, latest, current_subscription, notification_key, send_license_notifications,
  notify_subscription, notify_due, deliver, mail_all, record_sent, billing_roles, recipients_of,
  send_all, billing_permission,
}
use asset_hub.Worker.Once.{send_license_notifications_once}
use asset_hub.Tests.Data.{office}

abbrev billing_role : Role
billing_role = record {
  id = 30;
  tenant_id = 1;
  company_id = none;
  name = codes "Billing";
  permissions = billing_permission ∷ [];
}

abbrev current_license : Subscription
current_license = record {
  id = 40;
  tenant_id = 1;
  plan_id = 5;
  status = "active";
  started_at = 0;
  ends_at = some (20 * day_ms);
  created_at = 0;
}

abbrev licensed : Db
licensed = record office { roles = billing_role ∷ []; subscriptions = current_license ∷ [] }

abbrev send : User → Option Bool
send u = some true

find_window_least_example : (find_window warning_days 20 ≡ some 30) ↔ IsWindow 20 30
find_window_least_example = find_window_least 20 30

live_license_window_example :
    (w : ℕ) × (find_window warning_days (days_remaining (20 * day_ms) 5) ≡ some w)
    × (20 * day_ms ≤ 5 + w * day_ms)
live_license_window_example = live_license_window (20 * day_ms) 5 refl (omega arith)

send_license_notifications_once_example :
    let db' = (send_license_notifications send 1 5 licensed).1 in
    send_license_notifications send 1 6 db' ≡ (ok nothing, db')
unfolding send_license_notifications notify_subscription notify_due deliver mail_all record_sent
    create_audit_event current_subscription latest notification_key find_window days_remaining
    billing_roles recipients_of send_all decimal decimal_from ◌>>=◌
send_license_notifications_once_example =
    send_license_notifications_once send send 1 5 6 licensed _ _ current_license current_license
      (20 * day_ms) (20 * day_ms) (codes "expires-30") _ [] refl refl refl refl (omega arith) refl
      refl refl refl
