-- ===== src/Transfer/Isolation.antt =====
-- A call of the transfer service stays within the tenant and the company of its caller
-- (asset-transfer.service.ts, common/tenant-scoped.repository.ts).
use asset_hub.Prelude.{some, ℕ, Bool, true, ◌≡◌, ◌∙◌, refl, sym, ◌⊎◌, inl, inr, arith, String}
use asset_hub.Prelude.Collection.{
  Evolves, Evolves-refl, Evolves-append, Evolves-update_one, Evolves-trans,
}
use mathlib.Core.Path.{subst}
use asset_hub.Prelude.Action.Moves.{IsPreorder, Moves, Moves-modify, moves_rules}
use asset_hub.Models.{
  Db, Object, Asset, AssetAssignment, AssetAuditEvent, AuditEvent, AssetTransfer,
}
use asset_hub.Database.{
  update_asset, update_assignment, create_assignment, create_asset_audit_event, create_audit_event,
  create_transfer, update_transfer,
}
use asset_hub.Access.Scope.{AuthContext, scope, passes}
use asset_hub.Transfer.Workflow.{audit, require_events}

-- Either nothing changed, or both documents belong to `Own`.
abbrev Within : {A : Type 0} → (A → Type 0) → A → A → Type 0
Within Own x y = (y ≡ x) ⊎ (Own x × Own y)

Within-trans :
    {A : Type 0} (Own : A → Type 0) (x y z : A) → Within Own x y → Within Own y z → Within Own x z
Within-trans Own x y z (inl p) (inl q) = inl (q ∙ p)
Within-trans Own x y z (inl p) (inr (b, c)) = inr (subst Own p b, c)
Within-trans Own x y z (inr (a, b)) (inl q) = inr (a, subst Own (sym q) b)
Within-trans Own x y z (inr (a, b)) (inr (_, c)) = inr (a, c)

Own-Within : {A : Type 0} (Own : A → Type 0) (x y : A) → Own x → Within Own x y → Own y
Own-Within Own x y a (inl p) = subst Own (sym p) a
Own-Within Own x y a (inr (_, b)) = b

-- The collections that the service only reads.
abbrev pub Unread : Db → Db → Type 0
Unread s s' =
    (s'.users ≡ s.users)
    × (s'.companies ≡ s.companies)
    × (s'.tenants ≡ s.tenants)
    × (s'.roles ≡ s.roles)
    × (s'.sessions ≡ s.sessions)
    × (s'.subscriptions ≡ s.subscriptions)
    × (s'.entitlements ≡ s.entitlements)

-- An assignment stays one of the same asset to the same user.
abbrev pub SameHolder : AssetAssignment → AssetAssignment → Type 0
SameHolder a b = (b.id ≡ a.id) × (b.asset_id ≡ a.asset_id) × (b.user_id ≡ a.user_id)

SameHolder-trans : (a b c : AssetAssignment) → SameHolder a b → SameHolder b c → SameHolder a c
SameHolder-trans a b c h k = (k.0 ∙ h.0, k.1 ∙ h.1, k.2 ∙ h.2)

module _ (auth : AuthContext) where
  abbrev pub OwnTransfer : AssetTransfer → Type 0
  OwnTransfer t = t.tenant_id ≡ auth.tenant_id

  abbrev pub OwnAsset : Asset → Type 0
  OwnAsset a = passes (scope auth) a.tenant_id a.company_id ≡ true

  abbrev pub OwnEvent : AuditEvent → Type 0
  OwnEvent e = (e.tenant_id ≡ auth.tenant_id) × (e.actor_user_id ≡ some auth.user_id)

  abbrev pub OwnLifecycle : AssetAuditEvent → Type 0
  OwnLifecycle e = (e.tenant_id ≡ auth.tenant_id) × (e.company_id ≡ auth.company_id)

  -- Transfers and assets change only where they are the caller's; new transfers, audit events
  -- and lifecycle events are the caller's, no asset is created, no event is rewritten, and an assignment keeps
  -- its asset and its user.
  pub record Isolated (s s' : Db) : Type 0 where
    pub transfers : Evolves (Within OwnTransfer) OwnTransfer s.transfers s'.transfers
    pub assets : Evolves (Within OwnAsset) (λ _. ⊥) s.assets s'.assets
    pub events : Evolves (λ x y. y ≡ x) OwnEvent s.audit_events s'.audit_events
    pub lifecycle : Evolves (λ x y. y ≡ x) OwnLifecycle s.asset_audit_events s'.asset_audit_events
    pub holders : Evolves SameHolder (λ _. Unit) s.assignments s'.assignments
    pub others : Unread s s'

  transfers_refl : (s : Db) → Evolves (Within OwnTransfer) OwnTransfer s.transfers s.transfers
  transfers_refl s = Evolves-refl _ _ (λ x. inl refl) s.transfers

  assets_refl : (s : Db) → Evolves (Within OwnAsset) (λ _. ⊥) s.assets s.assets
  assets_refl s = Evolves-refl _ _ (λ x. inl refl) s.assets

  events_refl : (s : Db) → Evolves (λ x y. y ≡ x) OwnEvent s.audit_events s.audit_events
  events_refl s = Evolves-refl _ _ (λ x. refl) s.audit_events

  lifecycle_refl :
      (s : Db) → Evolves (λ x y. y ≡ x) OwnLifecycle s.asset_audit_events s.asset_audit_events
  lifecycle_refl s = Evolves-refl _ _ (λ x. refl) s.asset_audit_events

  holders_refl : (s : Db) → Evolves SameHolder (λ _. Unit) s.assignments s.assignments
  holders_refl s = Evolves-refl _ _ (λ x. (refl, refl, refl)) s.assignments

  Unread-refl : (s : Db) → Unread s s
  Unread-refl s = (refl, refl, refl, refl, refl, refl, refl)

  Isolated-refl : (s : Db) → Isolated s s
  Isolated-refl s = record {
    transfers = transfers_refl s;
    assets = assets_refl s;
    events = events_refl s;
    lifecycle = lifecycle_refl s;
    holders = holders_refl s;
    others = Unread-refl s;
  }

  Isolated-trans : (s t u : Db) → Isolated s t → Isolated t u → Isolated s u
  Isolated-trans s t u a b = record {
    transfers =
        Evolves-trans _ _ (Within-trans OwnTransfer) (Own-Within OwnTransfer) s.transfers
          t.transfers u.transfers a.transfers b.transfers;
    assets =
        Evolves-trans _ _ (Within-trans OwnAsset) (λ x y h k. h) s.assets t.assets u.assets a.assets
          b.assets;
    events =
        Evolves-trans _ _ (λ x y z p q. q ∙ p) (λ x y h k. subst OwnEvent (sym k) h) s.audit_events
          t.audit_events u.audit_events a.events b.events;
    lifecycle =
        Evolves-trans _ _ (λ x y z p q. q ∙ p) (λ x y h k. subst OwnLifecycle (sym k) h)
          s.asset_audit_events t.asset_audit_events u.asset_audit_events a.lifecycle b.lifecycle;
    holders =
        Evolves-trans _ _ SameHolder-trans (λ _ _ _ _. tt) s.assignments t.assignments u.assignments
          a.holders b.holders;
    others = ground (arith, a.others, b.others);
  }

  pub Isolated-order : IsPreorder Isolated
  Isolated-order = record { same = Isolated-refl; then_also = Isolated-trans }

  -- A write of a collection that the relation does not follow.
  pub update_assignment-Isolated :
      (p : AssetAssignment → Bool) (f : AssetAssignment → AssetAssignment)
      → ((a : AssetAssignment) → SameHolder a (f a))
      → Moves Isolated (update_assignment p f)
  unfolding update_assignment
  update_assignment-Isolated p f same = Moves-modify _ λ s. record {
    transfers = transfers_refl s;
    assets = assets_refl s;
    events = events_refl s;
    lifecycle = lifecycle_refl s;
    holders = Evolves-update_one _ _ (λ x. (refl, refl, refl)) p f s.assignments λ a h. same a;
    others = Unread-refl s;
  }

  pub create_assignment-Isolated : (a : AssetAssignment) → Moves Isolated (create_assignment a)
  unfolding create_assignment
  create_assignment-Isolated a = Moves-modify _ λ s. record {
    transfers = transfers_refl s;
    assets = assets_refl s;
    events = events_refl s;
    lifecycle = lifecycle_refl s;
    holders = Evolves-append _ _ (λ x. (refl, refl, refl)) s.assignments _ (tt, tt);
    others = Unread-refl s;
  }

  pub create_asset_audit_event-Isolated :
      (e : AssetAuditEvent) → OwnLifecycle e → Moves Isolated (create_asset_audit_event e)
  unfolding create_asset_audit_event
  create_asset_audit_event-Isolated e mine = Moves-modify _ λ s. record {
    transfers = transfers_refl s;
    assets = assets_refl s;
    events = events_refl s;
    lifecycle = Evolves-append _ _ (λ x. refl) s.asset_audit_events _ (mine, tt);
    holders = holders_refl s;
    others = Unread-refl s;
  }

  write_event-Isolated : (e : AuditEvent) → OwnEvent e → Moves Isolated (create_audit_event e)
  unfolding create_audit_event
  write_event-Isolated e mine = Moves-modify _ λ s. record {
    transfers = transfers_refl s;
    assets = assets_refl s;
    events = Evolves-append _ _ (λ x. refl) s.audit_events _ (mine, tt);
    lifecycle = lifecycle_refl s;
    holders = holders_refl s;
    others = Unread-refl s;
  }

  pub audit-Isolated :
      (a : String) (id : ℕ) (m : Object) (now : ℕ) → Moves Isolated (audit auth a id m now)
  unfolding audit require_events
  audit-Isolated a id m now = search (moves_rules, Isolated-order, write_event-Isolated) depth 8

  pub create_transfer-Isolated :
      (t : AssetTransfer) → OwnTransfer t → Moves Isolated (create_transfer t)
  unfolding create_transfer
  create_transfer-Isolated t own = Moves-modify _ λ s. record {
    transfers = Evolves-append _ _ (λ x. inl refl) s.transfers _ (own, tt);
    assets = assets_refl s;
    events = events_refl s;
    lifecycle = lifecycle_refl s;
    holders = holders_refl s;
    others = Unread-refl s;
  }

  pub update_transfer-Isolated :
      (p : AssetTransfer → Bool) (f : AssetTransfer → AssetTransfer)
      → ((t : AssetTransfer) → p t ≡ true → OwnTransfer t × OwnTransfer (f t))
      → Moves Isolated (update_transfer p f)
  unfolding update_transfer
  update_transfer-Isolated p f own = Moves-modify _ λ s. record {
    transfers = Evolves-update_one _ _ (λ x. inl refl) p f s.transfers λ t h. inr (own t h);
    assets = assets_refl s;
    events = events_refl s;
    lifecycle = lifecycle_refl s;
    holders = holders_refl s;
    others = Unread-refl s;
  }

  pub update_asset-Isolated :
      (p : Asset → Bool) (f : Asset → Asset)
      → ((a : Asset) → p a ≡ true → OwnAsset a × OwnAsset (f a))
      → Moves Isolated (update_asset p f)
  unfolding update_asset
  update_asset-Isolated p f own = Moves-modify _ λ s. record {
    transfers = transfers_refl s;
    assets = Evolves-update_one _ _ (λ x. inl refl) p f s.assets λ a h. inr (own a h);
    events = events_refl s;
    lifecycle = lifecycle_refl s;
    holders = holders_refl s;
    others = Unread-refl s;
  }
