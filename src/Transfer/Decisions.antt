-- ===== src/Transfer/Decisions.antt =====
-- Approval, rejection and cancellation (asset-transfer.service.ts): a read of the transfer with a
-- test of its status, then a compare-and-set on the status, then the audit event.
use asset_hub.Prelude.{ℕ, Option, none, some, Bool, not, ◌&&◌, ◌==◌, [], ◌∷◌}
use asset_hub.Prelude.Collection.{find_one}
use asset_hub.Prelude.Text.{Text, codes, trimmed}
use asset_hub.Prelude.Action.{Action, Error, pure, or_raise, raise_if, gets, ◌>>=◌, ◌>>◌, conflict}
use asset_hub.Models.{Db, AssetTransfer, TransferStatus, approved, rejected, cancelled, Value}
use asset_hub.Database.{update_transfer}
use asset_hub.Access.Scope.{AuthContext}
use asset_hub.Transfer.Workflow.{is_pending, is_active, note_value, audit, require_transfer}

abbrev pub in_status : AuthContext → ℕ → (TransferStatus → Bool) → AssetTransfer → Bool
in_status auth transfer_id from t =
    t.id == transfer_id && t.tenant_id == auth.tenant_id && from t.status

-- `findOneAndUpdate({ _id, tenantId, status }, …, { new: true })`, with the throw on no match.
unfoldable pub change_transfer :
    AuthContext
    → ℕ
    → (TransferStatus → Bool)
    → (AssetTransfer → AssetTransfer)
    → Error
    → Action Db AssetTransfer
change_transfer auth transfer_id from f changed = do
  old ← or_raise (← gets (λ db. find_one (in_status auth transfer_id from) db.transfers)) changed
  update_transfer (in_status auth transfer_id from) f
  pure (f old)

abbrev decide : TransferStatus → AuthContext → Option Text → ℕ → AssetTransfer → AssetTransfer
decide to auth note now t = record t {
  status = to;
  approved_by_user_id = some auth.user_id;
  approved_at = some now;
  approval_note = elim (trimmed note) [ none ↦ t.approval_note | some n ↦ some n ];
}

abbrev cancel_fields : AuthContext → Option Text → ℕ → AssetTransfer → AssetTransfer
cancel_fields auth note now t = record t {
  status = cancelled;
  cancelled_by_user_id = some auth.user_id;
  cancelled_at = some now;
  cancellation_note = elim (trimmed note) [ none ↦ t.cancellation_note | some n ↦ some n ];
}

unfoldable pub approve_write : AuthContext → ℕ → Option Text → ℕ → Action Db AssetTransfer
approve_write auth transfer_id note now =
    change_transfer auth transfer_id is_pending (decide approved auth note now)
      (conflict "Transfer changed before approval")

unfoldable pub approve : AuthContext → ℕ → Option Text → ℕ → Action Db AssetTransfer
approve auth transfer_id note now = do
  transfer ← require_transfer auth transfer_id
  raise_if (not (is_pending transfer.status)) (conflict "Only pending transfers can be approved")
  updated ← approve_write auth transfer_id note now
  audit auth "asset.transfer.approved" transfer_id
      ((codes "assetId", Value.id transfer.asset_id)
        ∷ (codes "status", Value.str "APPROVED")
        ∷ (codes "note", note_value (trimmed note))
        ∷ [])
      now
  pure updated

unfoldable pub reject_write : AuthContext → ℕ → Option Text → ℕ → Action Db AssetTransfer
reject_write auth transfer_id note now =
    change_transfer auth transfer_id is_pending (decide rejected auth note now)
      (conflict "Transfer changed before rejection")

unfoldable pub reject : AuthContext → ℕ → Option Text → ℕ → Action Db AssetTransfer
reject auth transfer_id note now = do
  transfer ← require_transfer auth transfer_id
  raise_if (not (is_pending transfer.status)) (conflict "Only pending transfers can be rejected")
  updated ← reject_write auth transfer_id note now
  audit auth "asset.transfer.rejected" transfer_id
      ((codes "assetId", Value.id transfer.asset_id)
        ∷ (codes "status", Value.str "REJECTED")
        ∷ (codes "note", note_value (trimmed note))
        ∷ [])
      now
  pure updated

unfoldable pub cancel_write : AuthContext → ℕ → Option Text → ℕ → Action Db AssetTransfer
cancel_write auth transfer_id note now =
    change_transfer auth transfer_id is_active (cancel_fields auth note now)
      (conflict "Transfer changed before cancellation")

unfoldable pub cancel : AuthContext → ℕ → Option Text → ℕ → Action Db AssetTransfer
cancel auth transfer_id note now = do
  transfer ← require_transfer auth transfer_id
  raise_if (not (is_active transfer.status))
      (conflict "Transfer cannot be cancelled in its current state")
  updated ← cancel_write auth transfer_id note now
  audit auth "asset.transfer.cancelled" transfer_id
      ((codes "assetId", Value.id transfer.asset_id)
        ∷ (codes "status", Value.str "CANCELLED")
        ∷ (codes "note", note_value (trimmed note))
        ∷ [])
      now
  pure updated
