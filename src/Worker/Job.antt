-- ===== src/Worker/Job.antt =====
-- The daily job (apps/api/src/queue/worker.main.ts): for every tenant that is not archived, the audit
-- events past their retention are purged, and then the license notifications are sent. The purge
-- (`AuditService.purgeExpired`) is a parameter: what it removes, and how many that are.
use asset_hub.Prelude.{ℕ, ◌+◌, Bool, true, false, List, [], ◌∷◌, length}
use asset_hub.Prelude.Collection.{find_all}
use asset_hub.Prelude.Action.{Action, pure, gets, ◌>>=◌}
use asset_hub.Models.{Db, User, Tenant, TenantStatus}
use asset_hub.Prelude.{Option}
use asset_hub.Worker.Notify.{Report, send_license_notifications}

pub record JobReport : Type 0 where
  pub tenants : ℕ
  pub audit_events_deleted : ℕ
  pub license_notification_recipients : ℕ
  pub license_notifications_sent : ℕ

abbrev pub not_archived : TenantStatus → Bool
not_archived TenantStatus.archived = false
not_archived _ = true

abbrev add_report : ℕ → Report → JobReport → JobReport
add_report deleted n r = record r {
  audit_events_deleted = deleted + r.audit_events_deleted;
  license_notification_recipients = n.recipients + r.license_notification_recipients;
  license_notifications_sent = n.sent + r.license_notifications_sent;
}

abbrev no_reports : ℕ → JobReport
no_reports n = record {
  tenants = n;
  audit_events_deleted = 0;
  license_notification_recipients = 0;
  license_notifications_sent = 0;
}

module _ (purge_expired : ℕ → Action Db ℕ) (send : ℕ → User → Option Bool) (now : ℕ) where
  unfoldable pub run_tenants : List Tenant → JobReport → Action Db JobReport
  run_tenants [] r = pure r
  run_tenants (t ∷ ts) r = do
    deleted ← purge_expired t.id
    n ← send_license_notifications (send t.id) t.id now
    run_tenants ts (add_report deleted n r)

  unfoldable pub license_maintenance : Action Db JobReport
  license_maintenance = do
    tenants ← gets λ db. find_all (λ t. not_archived t.status) db.tenants
    run_tenants tenants (no_reports (length tenants))
