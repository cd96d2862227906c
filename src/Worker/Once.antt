-- ===== src/Worker/Once.antt =====
-- A notification is sent once (apps/api/src/queue/worker.main.ts).
use asset_hub.Prelude.{
  ℕ, ◌≡◌, ◌<◌, refl, sym, Option, none, some, Bool, true, List, [], ◌∷◌, ◌++◌, ltb, arith,
  Option-cases, Bool-cases, inl, inr, ap, ◌∙◌,
}
use asset_hub.Prelude.Text.{Text, text_eq, text_eq_iff}
use asset_hub.Prelude.Collection.{find_one, find_one-append, find_one-append_none}
use asset_hub.Prelude.Action.{ok, ◌>>=◌}
use asset_hub.Models.{Db, User, Subscription, AuditEvent}
use asset_hub.Database.{create_audit_event}
use asset_hub.Worker.Notify.{
  is_empty, sent_event, send_all, Report, nothing, current_subscription, notification_key, notified,
  send_license_notifications, notify_subscription, notify_due, deliver, mail_all, record_sent,
  billing_roles, recipients_of,
}

text_eq_refl : (t : Text) → text_eq t t ≡ true
text_eq_refl t = (text_eq_iff t t).1 refl

module _ (send : User → Option Bool) (tenant_id now : ℕ) (sub : Subscription) (key : Text)
    (ends_at : ℕ) where
  due_once :
      (db : Db) (e : AuditEvent)
      → find_one (notified tenant_id key) db.audit_events ≡ some e
      → notify_due send tenant_id sub (some key) ends_at now db ≡ (ok nothing, db)
  unfolding notify_due ◌>>=◌
  due_once db e h = rw h refl

  notified_event :
      (n : ℕ) → notified tenant_id key (sent_event tenant_id sub key n ends_at now) ≡ true
  notified_event n = rw (text_eq_refl key) (ground arith)

  found_event :
      (es : List AuditEvent) (n : ℕ)
      → find_one (notified tenant_id key) es ≡ none
      → find_one (notified tenant_id key) (es ++ sent_event tenant_id sub key n ends_at now ∷ [])
        ≡ some (sent_event tenant_id sub key n ends_at now)
  found_event es n h =
      find_one-append_none (notified tenant_id key) es
        (sent_event tenant_id sub key n ends_at now ∷ []) h
      ∙ rw (notified_event n) refl

  mailed :
      (db db' : Db) (us : List User) (r : Report)
      → find_one (notified tenant_id key) db.audit_events ≡ none
      → mail_all send tenant_id sub key ends_at now us db ≡ (ok r, db')
      → 0 < r.sent
      → (e : AuditEvent) × (find_one (notified tenant_id key) db'.audit_events ≡ some e)
  unfolding mail_all ◌>>=◌ record_sent create_audit_event
  mailed db db' us r h k p = elim (Bool-cases (ltb 0 (send_all send us 0))) [
    | inl e ↦
        let k' = rw e at k in
        (
          sent_event tenant_id sub key (send_all send us 0) ends_at now,
          ap (λ x. find_one (notified tenant_id key) x.1.audit_events) (sym k')
              ∙ found_event db.audit_events (send_all send us 0) h,
        )
    | inr e ↦ let k' = rw e at k in absurd (ground (arith, k'))
  ]

  due_mailed :
      (db db' : Db) (r : Report)
      → notify_due send tenant_id sub (some key) ends_at now db ≡ (ok r, db')
      → 0 < r.sent
      → (e : AuditEvent) × (find_one (notified tenant_id key) db'.audit_events ≡ some e)
  unfolding notify_due ◌>>=◌ deliver
  due_mailed db db' r k p =
      elim (Option-cases (find_one (notified tenant_id key) db.audit_events)) [
        | inl e ↦ elim (Bool-cases (is_empty (billing_roles tenant_id db))) [
          | inl f ↦ let k' = rw (e, f) at k in absurd (ground (arith, k'))
          | inr f ↦
              mailed db db' (recipients_of tenant_id (billing_roles tenant_id db) db) r e
                (rw (e, f) at k) p
        ]
        | inr (x, e) ↦ let k' = rw e at k in absurd (ground (arith, k'))
      ]

module _ (send : User → Option Bool) (tenant_id now : ℕ) where
  send_due :
      (db : Db) (sub : Subscription) (ends_at : ℕ) (key : Text)
      → current_subscription tenant_id db ≡ some sub
      → sub.ends_at ≡ some ends_at
      → notification_key ends_at now ≡ some key
      → send_license_notifications send tenant_id now db
        ≡ notify_due send tenant_id sub (some key) ends_at now db
  unfolding send_license_notifications ◌>>=◌ notify_subscription notify_due deliver mail_all
      record_sent
  send_due db sub ends_at key c e k = rw (c, e, k) refl

-- A warning is mailed once for a tenant: after a run that mailed one, a run at any later time, on any
-- later state whose audit log still has what that run left, whose current subscription is due for
-- the warning of the same key, mails nothing and leaves the state as it is. The subscription may be
-- another one, or the same one renewed in between.
pub send_license_notifications_once :
    (send send' : User → Option Bool)
    → (tenant_id now now' : ℕ) (db db' later : Db)
    → (sub sub' : Subscription) (ends_at ends_at' : ℕ) (key : Text) (r : Report)
      (more : List AuditEvent)
    → current_subscription tenant_id db ≡ some sub
    → sub.ends_at ≡ some ends_at
    → notification_key ends_at now ≡ some key
    → send_license_notifications send tenant_id now db ≡ (ok r, db')
    → 0 < r.sent
    → later.audit_events ≡ db'.audit_events ++ more
    → current_subscription tenant_id later ≡ some sub'
    → sub'.ends_at ≡ some ends_at'
    → notification_key ends_at' now' ≡ some key
    → send_license_notifications send' tenant_id now' later ≡ (ok nothing, later)
send_license_notifications_once send send' tenant_id now now' db db' later sub sub' ends_at ends_at'
      key r more c e k run p grown c' e' k' =
    let first = sym (send_due send tenant_id now db sub ends_at key c e k) ∙ run in
    let (x, found) = due_mailed send tenant_id now sub key ends_at db db' r first p in
    let kept : find_one (notified tenant_id key) later.audit_events ≡ some x =
      rw grown (find_one-append (notified tenant_id key) db'.audit_events more x found) in
    send_due send' tenant_id now' later sub' ends_at' key c' e' k'
    ∙ due_once send' tenant_id now' sub' key ends_at' later x kept
