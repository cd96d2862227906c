-- ===== src/Transfer/Handover.antt =====
-- What the steps of a completion do to assets and assignments (asset-transfer.service.ts, `complete`).
use asset_hub.Prelude.{
  ℕ, ◌≡◌, refl, ◌∙◌, some, Bool, true, List, [], ◌∷◌, arith, Option-cases, Bool-cases, inl, inr,
  String,
}
use asset_hub.Prelude.Collection.{find_one, update_one, find_one_sound}
use asset_hub.Prelude.Action.{Error, ok, ◌>>=◌}
use asset_hub.Prelude.Action.Moves.{IsPreorder, Moves, moves_rules, Moves-modify}
use asset_hub.Models.{
  Db, Object, Asset, AssetTransfer, TransferStatus, LifecycleState, AuditEvent, AssetAuditEvent,
}
use asset_hub.Database.{update_asset, create_asset_audit_event, create_audit_event, update_transfer}
use asset_hub.Access.Scope.{AuthContext}
use asset_hub.Transfer.Workflow.{audit, require_events}
use asset_hub.Transfer.Decisions.{change_transfer}
use asset_hub.Transfer.Completion.{
  touch_asset, move_asset, moved, in_scope, in_state, same_state, lifecycle_event,
}

-- The steps that leave assets and assignments alone.
abbrev pub Kept : Db → Db → Type 0
Kept s s' = (s'.assets ≡ s.assets) × (s'.assignments ≡ s.assignments)

pub Kept-order : IsPreorder Kept
Kept-order = record { same = λ s. (refl, refl); then_also = λ s t u h k. (k.0 ∙ h.0, k.1 ∙ h.1) }

update_transfer-Kept :
    (p : AssetTransfer → Bool) (f : AssetTransfer → AssetTransfer)
    → Moves Kept (update_transfer p f)
unfolding update_transfer
update_transfer-Kept p f = Moves-modify _ λ s. (refl, refl)

create_audit_event-Kept : (e : AuditEvent) → Moves Kept (create_audit_event e)
unfolding create_audit_event
create_audit_event-Kept e = Moves-modify _ λ s. (refl, refl)

create_asset_audit_event-Kept : (e : AssetAuditEvent) → Moves Kept (create_asset_audit_event e)
unfolding create_asset_audit_event
create_asset_audit_event-Kept e = Moves-modify _ λ s. (refl, refl)

pub change_transfer-Kept :
    (auth : AuthContext) (id : ℕ) (from : TransferStatus → Bool) (f : AssetTransfer → AssetTransfer)
    (e : Error)
    → Moves Kept (change_transfer auth id from f e)
unfolding change_transfer
change_transfer-Kept auth id from f e =
    search (moves_rules, Kept-order, update_transfer-Kept) depth 8

pub audit-Kept :
    (auth : AuthContext) (a : String) (id : ℕ) (m : Object) (now : ℕ)
    → Moves Kept (audit auth a id m now)
unfolding audit require_events
audit-Kept auth a id m now = search (moves_rules, Kept-order, create_audit_event-Kept) depth 8

pub lifecycle_event-Kept :
    (auth : AuthContext) (t : AssetTransfer) (id : ℕ) (from to : LifecycleState) (now : ℕ)
    → Moves Kept (lifecycle_event auth t id from to now)
unfolding lifecycle_event require_events
lifecycle_event-Kept auth t id from to now =
    search (moves_rules, Kept-order, create_asset_audit_event-Kept) depth 7

-- A document that a filter finds first, changed by a narrower filter that it passes.
find_one-update_first :
    {A : Type 0} (p q : A → Bool) (f : A → A) (xs : List A) (x : A)
    → ((y : A) → q y ≡ true → p y ≡ true)
    → q x ≡ true
    → p (f x) ≡ true
    → find_one p xs ≡ some x
    → find_one p (update_one q f xs) ≡ some (f x)
find_one-update_first p q f [] x narrow qx pf h = cc
find_one-update_first p q f (y ∷ ys) x narrow qx pf h = elim (Bool-cases (p y)) [
  | inl e ↦ let same : y ≡ x = ground arith in ground arith
  | inr e ↦
      let wide = narrow y in ground (arith, find_one-update_first p q f ys x narrow qx pf, wide)
]

-- The touch finds the asset of the scope and leaves all but its time.
pub touch_asset-ok :
    (auth : AuthContext) (id now : ℕ) (s s' : Db) (a : Asset)
    → touch_asset auth id now s ≡ (ok a, s')
    → (find_one (in_scope auth id) s.assets ≡ some a)
      × (find_one (in_scope auth id) s'.assets ≡ some (record a { updated_at = now }))
      × (s'.assignments ≡ s.assignments)
unfolding touch_asset update_asset ◌>>=◌
touch_asset-ok auth id now s s' a h = elim (Option-cases (find_one (in_scope auth id) s.assets)) [
  | inl e ↦ absurd (ground arith)
  | inr (b, e) ↦
      let same : b ≡ a = ground arith in
      let there : in_scope auth id b ≡ true = find_one_sound (in_scope auth id) s.assets b e in
      let after =
        find_one-update_first (in_scope auth id) (in_scope auth id)
          (λ x. record x { updated_at = now }) s.assets b (λ y k. k) there there e in
      let assets : s'.assets
          ≡ update_one (in_scope auth id) (λ x. record x { updated_at = now }) s.assets =
        ground arith in
      (ground arith, rw assets (after ∙ ground arith), ground arith)
]

-- The move changes the asset of the scope where it still has the status that was read.
pub move_asset-ok :
    (auth : AuthContext) (t : AssetTransfer) (from to : LifecycleState) (now : ℕ) (s s' : Db)
    (a : Asset)
    → find_one (in_scope auth t.asset_id) s.assets ≡ some a
    → same_state a.status from ≡ true
    → move_asset auth t from to now s ≡ (ok tt, s')
    → (find_one (in_scope auth t.asset_id) s'.assets ≡ some (moved t to now a))
      × (s'.assignments ≡ s.assignments)
unfolding move_asset update_asset ◌>>=◌
move_asset-ok auth t from to now s s' a found status h =
    elim (Option-cases (find_one (in_state auth t.asset_id from) s.assets)) [
      | inl e ↦ absurd (ground arith)
      | inr (b, e) ↦
          let there : in_scope auth t.asset_id a ≡ true =
            find_one_sound (in_scope auth t.asset_id) s.assets a found in
          let after =
            find_one-update_first (in_scope auth t.asset_id) (in_state auth t.asset_id from)
              (moved t to now) s.assets a (λ y k. ground arith) (rw (there, status) refl) there
              found in
          let assets : s'.assets
              ≡ update_one (in_state auth t.asset_id from) (moved t to now) s.assets =
            ground arith in
          (rw assets after, ground arith)
    ]
