-- ===== src/Worker/Notify.antt =====
-- The notifications of one tenant (apps/api/src/queue/worker.main.ts, `sendLicenseNotifications`).
-- Sending a mail is a parameter: whether it was sent, or nothing where the call threw.
use asset_hub.Prelude.{
  ℕ, ⊤, suc, Option, none, some, Bool, true, false, ◌&&◌, ◌||◌, List, [], ◌∷◌, ◌++◌, ltb, ◌==◌, any,
  length, if◌then◌else◌, given, String,
}
use asset_hub.Prelude.Text.{Text, codes, decimal, text_eq}
use asset_hub.Prelude.Collection.{find_one, find_all}
use asset_hub.Prelude.Action.{Action, pure, gets, ◌>>=◌, ◌>>◌}
use text.Mathlib.Text.{◌==◌ as str_eq}
use asset_hub.Models.{Db, User, Role, Subscription, AuditEvent, Value, Object, AccountType}
use asset_hub.Database.{create_audit_event}
use asset_hub.Worker.Window.{warning_days, find_window, is_expired, days_remaining}

pub record Report : Type 0 where
  pub recipients : ℕ
  pub sent : ℕ

abbrev pub nothing : Report
nothing = record { recipients = 0; sent = 0 }

abbrev pub billing_permission : String
billing_permission = "billing:read"

-- The newest document by `createdAt`, the first of those created at the same time.
unfoldable pub latest : List Subscription → Option Subscription
latest [] = none
latest (x ∷ xs) = elim (latest xs) [
  | none ↦ some x
  | some y ↦ if ltb x.created_at y.created_at then some y else some x
]

-- `{ $in: ['active', 'trialing', 'past_due'] }`
abbrev pub is_current : String → Bool
is_current s = str_eq s "active" || str_eq s "trialing" || str_eq s "past_due"

unfoldable pub current_subscription : ℕ → Db → Option Subscription
unfolding latest
current_subscription tenant_id db =
    latest (find_all (λ x. x.tenant_id == tenant_id && is_current x.status) db.subscriptions)

-- `notificationKey`, where there is something to notify of.
unfoldable pub notification_key : ℕ → ℕ → Option Text
unfolding find_window days_remaining decimal
notification_key ends_at now =
    if is_expired ends_at now
    then some (codes "expired")
    else elim (find_window warning_days (days_remaining ends_at now)) [
      | none ↦ none
      | some w ↦ some (codes "expires-" ++ decimal w)
    ]

abbrev key_of : Object → Option Text
key_of [] = none
key_of ((k, Value.text v) ∷ m) = if text_eq k (codes "notificationKey") then some v else key_of m
key_of ((k, _) ∷ m) = key_of m

abbrev is_text : Option Text → Text → Bool
is_text none t = false
is_text (some s) t = text_eq s t

abbrev pub sent_action : String
sent_action = "license.expiry_notification_sent"

-- The filter of `alreadySent`.
abbrev pub notified : ℕ → Text → AuditEvent → Bool
notified tenant_id key e =
    e.tenant_id == tenant_id && str_eq e.action sent_action && is_text (key_of e.metadata) key

abbrev is_tenant : AccountType → Bool
is_tenant AccountType.tenant = true
is_tenant AccountType.system = false

unfoldable pub billing_roles : ℕ → Db → List Role
billing_roles tenant_id db =
    find_all (λ r. r.tenant_id == tenant_id && any (str_eq billing_permission) r.permissions)
      db.roles

unfoldable pub recipients_of : ℕ → List Role → Db → List User
recipients_of tenant_id roles db =
    find_all
      (λ u.
        u.tenant_id == tenant_id
        && is_tenant u.account_type
        && u.is_active
        && any (λ id. any (λ (r : Role). r.id == id) roles) u.role_ids)
      db.users

abbrev pub is_empty : List Role → Bool
is_empty [] = true
is_empty (_ ∷ _) = false

abbrev tally : Option Bool → ℕ → ℕ
tally (some true) n = suc n
tally _ n = n

-- The event that a run with mails sent leaves.
abbrev pub sent_event : ℕ → Subscription → Text → ℕ → ℕ → ℕ → AuditEvent
sent_event tenant_id sub key sent ends_at now = record {
  tenant_id = tenant_id;
  company_id = none;
  actor_user_id = none;
  action = sent_action;
  target_type = "subscription";
  target_id = sub.id;
  metadata =
      (codes "notificationKey", Value.text key)
      ∷ (codes "recipients", Value.num sent)
      ∷ (codes "expired", Value.flag (is_expired ends_at now))
      ∷ (codes "daysRemaining", Value.num (days_remaining ends_at now))
      ∷ [];
  occurred_at = now;
}

unfoldable pub record_sent : ℕ → Subscription → Text → ℕ → ℕ → ℕ → Action Db ⊤
record_sent tenant_id sub key sent ends_at now =
    if ltb 0 sent
    then create_audit_event (sent_event tenant_id sub key sent ends_at now)
    else pure tt

module _ (send : User → Option Bool) where
  -- The loop over the recipients; one without an email is passed over.
  unfoldable pub send_all : List User → ℕ → ℕ
  send_all [] sent = sent
  send_all (u ∷ us) sent = send_all us (if text_eq u.email [] then sent else tally (send u) sent)

  unfoldable pub mail_all : ℕ → Subscription → Text → ℕ → ℕ → List User → Action Db Report
  unfolding send_all
  mail_all tenant_id sub key ends_at now recipients = do
    let sent = send_all recipients 0
    record_sent tenant_id sub key sent ends_at now
    pure (record { recipients = length recipients; sent = sent })

  -- The sending, for a notification that is due and was not sent before.
  unfoldable pub deliver : ℕ → Subscription → Text → ℕ → ℕ → Action Db Report
  deliver tenant_id sub key ends_at now = do
    roles ← gets (billing_roles tenant_id)
    recipients ← gets (recipients_of tenant_id roles)
    if is_empty roles then pure nothing else mail_all tenant_id sub key ends_at now recipients

  unfoldable pub notify_due : ℕ → Subscription → Option Text → ℕ → ℕ → Action Db Report
  notify_due tenant_id sub none ends_at now = pure nothing
  notify_due tenant_id sub (some key) ends_at now = do
    already ← gets λ db. find_one (notified tenant_id key) db.audit_events
    if given already then pure nothing else deliver tenant_id sub key ends_at now

  unfoldable pub notify_subscription : ℕ → Option Subscription → ℕ → Action Db Report
  notify_subscription tenant_id none now = pure nothing
  notify_subscription tenant_id (some sub) now = elim sub.ends_at [
    | none ↦ pure nothing
    | some ends_at ↦ notify_due tenant_id sub (notification_key ends_at now) ends_at now
  ]

  unfoldable pub send_license_notifications : ℕ → ℕ → Action Db Report
  send_license_notifications tenant_id now = do
    subscription ← gets (current_subscription tenant_id)
    notify_subscription tenant_id subscription now
