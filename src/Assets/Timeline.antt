-- ===== src/Assets/Timeline.antt =====
-- The timeline of an asset (apps/api/src/modules/assets/asset-timeline.service.ts). An entry is shown with
-- its type, time, source and actor; titles, descriptions and metadata are left out. The queries' own sorts
-- only order entries of the same second, and are left out.
use asset_hub.Prelude.{
  ℕ, ◌/◌, Option, none, some, Bool, false, ◌&&◌, ◌||◌, List, [], ◌∷◌, ◌++◌, ◌==◌, ltb, get_or,
  or_else, given, map, is_id, if◌then◌else◌,
}
use asset_hub.Prelude.Text.{Text, codes, text_eq, starts_with}
use asset_hub.Prelude.Collection.{find_one, find_all}
use asset_hub.Prelude.Action.{Result, ok, err, not_found}
use asset_hub.Models.{
  Asset, AssetAssignment, AssetTransfer, AssetAuditEvent, TransferStatus, pending, approved,
  completed, rejected, cancelled,
}
use asset_hub.Access.Scope.{AuthContext, scope, passes}
use asset_hub.Audit.Log.{Event}

pub record Document : Type 0 where
  pub tenant_id : ℕ
  pub company_id : ℕ
  pub asset_id : ℕ
  pub created_at : Option ℕ

pub record Maintenance : Type 0 where
  pub tenant_id : ℕ
  pub company_id : ℕ
  pub asset_id : ℕ
  pub service_date : ℕ
  pub created_by_user_id : Option ℕ

pub record Acknowledgement : Type 0 where
  pub tenant_id : ℕ
  pub company_id : ℕ
  pub asset_id : ℕ
  pub is_acknowledged : Bool
  pub generated_at : ℕ
  pub acknowledged_at : Option ℕ
  pub generated_by_user_id : Option ℕ
  pub acknowledged_by_user_id : Option ℕ

pub record Sources : Type 0 where
  pub assets : List Asset
  pub created_at : ℕ → Option ℕ
  pub lifecycle : List AssetAuditEvent
  pub assignments : List AssetAssignment
  pub documents : List Document
  pub audits : List Event
  pub transfers : List AssetTransfer
  pub maintenance : List Maintenance
  pub acknowledgements : List Acknowledgement
  -- The text of the id of an asset, as audit events name it.
  pub id_text : ℕ → Text

pub record Entry : Type 0 where
  pub kind : Text
  pub timestamp : Option ℕ
  pub source : Text
  pub actor_user_id : Option ℕ

-- `{ tenantId: auth.tenantId, companyId: auth.companyId, assetId }`
abbrev pub of_asset : AuthContext → ℕ → ℕ → ℕ → ℕ → Bool
of_asset auth asset_id t c a = t == auth.tenant_id && c == auth.company_id && a == asset_id

abbrev pub about : AuthContext → Text → Event → Bool
about auth asset e =
    e.tenant_id == auth.tenant_id
    && is_id e.company_id auth.company_id
    && elim e.target_id [ none ↦ false | some t ↦ text_eq t asset ]

abbrev pub status_word : TransferStatus → Text
status_word pending = codes "pending"
status_word approved = codes "approved"
status_word completed = codes "completed"
status_word rejected = codes "rejected"
status_word cancelled = codes "cancelled"

abbrev pub created_entry : Option ℕ → Entry
created_entry at = record {
  kind = codes "asset.created";
  timestamp = at;
  source = codes "asset";
  actor_user_id = none;
}

abbrev pub lifecycle_entry : AssetAuditEvent → Entry
lifecycle_entry e = record {
  kind = codes "lifecycle";
  timestamp = some e.occurred_at;
  source = codes "asset_audit";
  actor_user_id = some e.actor_user_id;
}

abbrev pub assignment_entry : AssetAssignment → Entry
assignment_entry a = record {
  kind = if given a.returned_at then codes "assignment.returned" else codes "assignment";
  timestamp = some (get_or a.returned_at a.assigned_at);
  source = codes "assignment";
  actor_user_id = none;
}

abbrev pub transfer_entry : AssetTransfer → Entry
transfer_entry t = record {
  kind = codes "transfer." ++ status_word t.status;
  timestamp = some (get_or t.completed_at (get_or t.approved_at t.requested_at));
  source = codes "transfer";
  actor_user_id =
      or_else t.completed_by_user_id (or_else t.approved_by_user_id (some t.requested_by_user_id));
}

abbrev pub document_entry : Document → Entry
document_entry d = record {
  kind = codes "document.added";
  timestamp = d.created_at;
  source = codes "document";
  actor_user_id = none;
}

abbrev pub maintenance_entry : Maintenance → Entry
maintenance_entry m = record {
  kind = codes "maintenance";
  timestamp = some m.service_date;
  source = codes "maintenance";
  actor_user_id = m.created_by_user_id;
}

abbrev pub acknowledgement_entry : Acknowledgement → Entry
acknowledgement_entry a = record {
  kind =
      if a.is_acknowledged
      then codes "acknowledgement.acknowledged"
      else codes "acknowledgement.generated";
  timestamp = if a.is_acknowledged then a.acknowledged_at else some a.generated_at;
  source = codes "acknowledgement";
  actor_user_id = if a.is_acknowledged then a.acknowledged_by_user_id else a.generated_by_user_id;
}

abbrev pub audit_entry : Event → Entry
audit_entry e = record {
  kind = e.action;
  timestamp = some e.occurred_at;
  source = codes "audit";
  actor_user_id = e.actor_user_id;
}

-- Of the audit events, those about an asset.
abbrev pub is_asset_event : Event → Bool
is_asset_event e =
    starts_with (codes "asset") (get_or e.target_type []) || starts_with (codes "asset.") e.action

-- The entries before they are sorted.
unfoldable pub collected : AuthContext → ℕ → Sources → List Entry
collected auth id s =
    created_entry (s.created_at id)
    ∷ (map lifecycle_entry
          (find_all (λ e. of_asset auth id e.tenant_id e.company_id e.asset_id) s.lifecycle)
        ++ map assignment_entry (find_all (λ a. a.asset_id == id) s.assignments)
        ++ map transfer_entry
            (find_all (λ t. of_asset auth id t.tenant_id t.company_id t.asset_id) s.transfers)
        ++ map document_entry
            (find_all (λ d. of_asset auth id d.tenant_id d.company_id d.asset_id) s.documents)
        ++ map maintenance_entry
            (find_all (λ m. of_asset auth id m.tenant_id m.company_id m.asset_id) s.maintenance)
        ++ map acknowledgement_entry (
            find_all (λ a. of_asset auth id a.tenant_id a.company_id a.asset_id) s.acknowledgements)
        ++ map audit_entry
            (find_all (λ e. about auth (s.id_text id) e && is_asset_event e) s.audits))

abbrev pub own : AuthContext → ℕ → Asset → Bool
own auth id a = a.id == id && passes (scope auth) a.tenant_id a.company_id

module _ (no_time : ℕ) where
  -- `new Date(String(timestamp ?? 0)).getTime()`, in seconds: the text of a time has no fraction of a second.
  -- Without a time it is the time that `new Date('0')` gives, a parameter.
  abbrev pub seconds : Entry → ℕ
  seconds e = elim e.timestamp [ none ↦ no_time | some t ↦ t / 1000 ]

  -- `sort`, which keeps the order of entries of the same second.
  unfoldable pub insert_latest : Entry → List Entry → List Entry
  insert_latest e [] = e ∷ []
  insert_latest e (x ∷ xs) =
      let rest = insert_latest e xs in if ltb (seconds e) (seconds x) then x ∷ rest else e ∷ x ∷ xs

  unfoldable pub latest_first : List Entry → List Entry
  unfolding insert_latest
  latest_first [] = []
  latest_first (e ∷ es) = insert_latest e (latest_first es)

  unfoldable pub timeline : AuthContext → ℕ → Sources → Result (List Entry)
  unfolding collected latest_first
  timeline auth id s =
      if given (find_one (own auth id) s.assets)
      then ok (latest_first (collected auth id s))
      else err (not_found "Asset not found in your scope")
