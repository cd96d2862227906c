-- ===== src/Assets/Chronology.antt =====
-- The order of the timeline of an asset (asset-timeline.service.ts).
use asset_hub.Prelude.{ℕ, ◌+◌, ◌≤◌, Bool, List, [], ◌∷◌, ◌&&◌, ◌==◌, if◌then◌else◌}
use asset_hub.Prelude.Collection.{count_where, All}
use asset_hub.Access.Scope.{AuthContext}
use asset_hub.Assets.Timeline.{
  Entry, Sources, created_entry, lifecycle_entry, assignment_entry, transfer_entry, document_entry,
  maintenance_entry, acknowledgement_entry, audit_entry, is_asset_event, about, of_asset, seconds,
}

module _ (no_time : ℕ) where
  -- Each entry is at least as late as all after it.
  abbrev pub LatestFirst : List Entry → Type 0
  LatestFirst [] = Unit
  LatestFirst (e ∷ es) = All (λ x. seconds no_time x ≤ seconds no_time e) es × LatestFirst es

  -- How many entries with `p` the documents with `keep` make.
  abbrev pub entries : {A : Type 0} → (Entry → Bool) → (A → Entry) → (A → Bool) → List A → ℕ
  entries p entry keep xs = count_where (λ x. keep x && p (entry x)) xs

  -- The sum over the seven sources and the creation of the asset.
  abbrev pub expected : AuthContext → ℕ → Sources → (Entry → Bool) → ℕ
  expected auth id s p =
      (if p (created_entry (s.created_at id)) then 1 else 0)
      + (entries p lifecycle_entry (λ e. of_asset auth id e.tenant_id e.company_id e.asset_id)
            s.lifecycle
          + entries p assignment_entry (λ a. a.asset_id == id) s.assignments
          + entries p transfer_entry (λ t. of_asset auth id t.tenant_id t.company_id t.asset_id)
              s.transfers
          + entries p document_entry (λ d. of_asset auth id d.tenant_id d.company_id d.asset_id)
              s.documents
          + entries p maintenance_entry (λ m. of_asset auth id m.tenant_id m.company_id m.asset_id)
              s.maintenance
          + entries p acknowledgement_entry
              (λ a. of_asset auth id a.tenant_id a.company_id a.asset_id) s.acknowledgements
          + entries p audit_entry (λ e. about auth (s.id_text id) e && is_asset_event e) s.audits)
