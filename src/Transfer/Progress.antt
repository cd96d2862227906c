-- ===== src/Transfer/Progress.antt =====
-- How a transfer may change (asset-transfer.service.ts): what it is about stays, and its status
-- moves forward.
use asset_hub.Prelude.{ℕ, Option, Bool, true, false, ◌≡◌, ◌∙◌, refl, arith}
use asset_hub.Models.{
  AssetTransfer, TransferStatus, pending, approved, completed, rejected, cancelled,
}

-- PENDING comes before all, APPROVED before COMPLETED and CANCELLED, and the others are final.
abbrev pub reaches : TransferStatus → TransferStatus → Bool
reaches pending _ = true
reaches approved approved = true
reaches approved completed = true
reaches approved cancelled = true
reaches completed completed = true
reaches rejected rejected = true
reaches cancelled cancelled = true
reaches _ _ = false

-- What a transfer asks for.
abbrev pub terms : AssetTransfer → ℕ × ℕ × ℕ × ℕ × Option ℕ × Option ℕ × Option ℕ
terms t = (
  t.id, t.tenant_id, t.company_id, t.asset_id, t.to_user_id, t.to_location_id, t.to_department_id,
)

-- `u` is `t` at the same time or later.
abbrev pub Follows : AssetTransfer → AssetTransfer → Type 0
Follows t u = (terms u ≡ terms t) × (reaches t.status u.status ≡ true)

reaches_refl : (a : TransferStatus) → reaches a a ≡ true
reaches_refl pending = refl
reaches_refl approved = refl
reaches_refl completed = refl
reaches_refl rejected = refl
reaches_refl cancelled = refl

reaches_trans :
    (a b c : TransferStatus) → reaches a b ≡ true → reaches b c ≡ true → reaches a c ≡ true
reaches_trans a b c h k = ground arith

pub Follows-refl : (t : AssetTransfer) → Follows t t
Follows-refl t = (refl, reaches_refl t.status)

pub Follows-trans : (t u v : AssetTransfer) → Follows t u → Follows u v → Follows t v
Follows-trans t u v h k = (k.0 ∙ h.0, reaches_trans _ _ _ h.1 k.1)
