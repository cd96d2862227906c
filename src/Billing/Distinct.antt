-- ===== src/Billing/Distinct.antt =====
-- Subscriptions of different tenants, and the latest of a tenant (system-subscription.service.ts).
use asset_hub.Prelude.{ℕ, ◌≡◌, ◌≢◌, refl, none, List, [], ◌∷◌, ◌==◌, arith, Option-cases, inl, inr}
use asset_hub.Prelude.Collection.{find_all, All}
use asset_hub.Models.{Subscription}
use asset_hub.Worker.Notify.{latest}

pub latest-none : (xs : List Subscription) → latest xs ≡ none → xs ≡ []
unfolding latest
latest-none [] h = refl
latest-none (x ∷ xs) h = elim (Option-cases (latest xs)) [
  | inl e ↦ absurd (ground arith)
  | inr (y, e) ↦ absurd (ground arith)
]

pub none_of :
    (tenant_id : ℕ) (xs : List Subscription)
    → find_all (λ x. x.tenant_id == tenant_id) xs ≡ []
    → All (λ x. x.tenant_id ≢ tenant_id) xs
none_of tenant_id [] h = tt
none_of tenant_id (x ∷ xs) h = (ground arith, none_of tenant_id xs (ground arith))
