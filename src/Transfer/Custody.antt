-- ===== src/Transfer/Custody.antt =====
-- Who holds an asset after its transfer was completed (asset-transfer.service.ts, `complete`).
use asset_hub.Prelude.{
  ℕ, ◌≡◌, ◌≤◌, refl, sym, ◌∙◌, ap, Option, none, some, true, arith, given, or_else, if◌then◌else◌,
}
use mathlib.Core.Path.{subst}
use asset_hub.Prelude.Text.{Text}
use asset_hub.Prelude.Collection.{find_one, count_where, Distinct}
use asset_hub.Prelude.Action.{Action, Error, Result, ok, err, atomically, pure, ok_then}
use asset_hub.Prelude.Action.Moves.{Moves, Moves-raise_given, Moves-raise_if}
use asset_hub.Prelude.Action.Atomic.{Same-order}
use asset_hub.Models.{Db, Asset, AssetTransfer, LifecycleState, assigned, in_stock}
use asset_hub.Access.Scope.{AuthContext}
use asset_hub.Transfer.Workflow.{current_user_id, require_transfer, is_approved}
use asset_hub.Transfer.Completion.{
  moved, in_scope, target_state, complete_body, complete, same_state,
}
use asset_hub.Transfer.Frame.{recheck_user-Moves, validate_destination-Moves}
use asset_hub.Transfer.Reassignment.{open_for, close_assignment-ok, open_assignment-ok}
use asset_hub.Transfer.Handover.{
  Kept, change_transfer-Kept, audit-Kept, lifecycle_event-Kept, touch_asset-ok, move_asset-ok,
}

same_state_refl : (a : LifecycleState) → same_state a a ≡ true
same_state_refl a = ground arith

unchanged :
    {A : Type 0} (m : Action Db A)
    → Moves (λ s s'. s' ≡ s) m
    → (s s' : Db) (a : A) → m s ≡ (ok a, s')
    → s' ≡ s
unchanged m k s s' a h = sym (ap (λ z. z.1) h) ∙ k.at s

kept :
    {A : Type 0} (m : Action Db A)
    → Moves Kept m
    → (s s' : Db) (a : A) → m s ≡ (ok a, s')
    → Kept s s'
kept m k s s' a h = subst (λ z. Kept s z) (ap (λ z. z.1) h) (k.at s)

-- The asset in the caller's scope, moved, and its holder.
abbrev Carried : AuthContext → AssetTransfer → ℕ → Db → Db → Type 0
Carried auth t now s s' =
    (a : Asset) × (find_one (in_scope auth t.asset_id) s.assets ≡ some a)
    × (find_one (in_scope auth t.asset_id) s'.assets ≡ some (moved t (target_state t) now a))
    × (current_user_id t.asset_id s' ≡ t.to_user_id)

-- What was handed over is so in states with the same assets and assignments.
handed_frame :
    (auth : AuthContext) (t u : AssetTransfer) (now : ℕ) (s s0 s3 s' : Db)
    → u ≡ t
    → s.assets ≡ s0.assets
    → s'.assets ≡ s3.assets
    → s'.assignments ≡ s3.assignments
    → Carried auth u now s s3
    → Carried auth t now s0 s'
handed_frame auth t u now s s0 s3 s' same first assets assignments done =
    let (a, there, after, holder) = subst (λ v. Carried auth v now s s3) same done in
    (
      a,
      rw (sym first) there,
      rw assets after,
      ap (λ o. elim o [ none ↦ none | some x ↦ x.user_id ])
            (ap (find_one (open_for t.asset_id)) assignments)
          ∙ holder,
    )

-- A transaction that returned did what its body did.
committed :
    {A : Type 0} (m : Action Db A) (s s' : Db) (a : A)
    → atomically m s ≡ (ok a, s')
    → m s ≡ (ok a, s')
unfolding atomically
committed {A} m s s' a h = go (m s) h
  where
    go : (r : Result A × Db) → atomically (λ _. r) s ≡ (ok a, s') → r ≡ (ok a, s')
    go (ok b, t) h = h
    go (err e, t) h = absurd (ground arith)

-- An asset of the caller's scope that is, after, where the transfer sends it, with the status that belongs to
-- being held by someone or in stock, and held by the user that the transfer names.
abbrev pub HandedOver : AuthContext → AssetTransfer → Db → Db → Type 0
HandedOver auth t s s' =
    (a : Asset) × (b : Asset) × (find_one (in_scope auth t.asset_id) s.assets ≡ some a)
    × (find_one (in_scope auth t.asset_id) s'.assets ≡ some b)
    × (b.location_id ≡ or_else t.to_location_id a.location_id)
    × (b.department_id ≡ or_else t.to_department_id a.department_id)
    × (b.status ≡ (if given t.to_user_id then assigned else in_stock))
    × (current_user_id t.asset_id s' ≡ t.to_user_id)

module _ (lifecycle_error : LifecycleState → LifecycleState → Option Error) where
  complete_body-Carried :
      (auth : AuthContext) (t : AssetTransfer) (id : ℕ) (remark : Option Text) (new_id now : ℕ)
      (s s' : Db) (b : LifecycleState × AssetTransfer)
      → Distinct (λ a. a.id) s.assignments
      → count_where (open_for t.asset_id) s.assignments ≤ 1
      → complete_body lifecycle_error auth t id remark new_id now s ≡ (ok b, s')
      → Carried auth t now s s'
  unfolding complete_body pure
  complete_body-Carried auth t id remark new_id now s s' b distinct one h =
      ok_then _ _ s s' b h λ a s1 e1 k1. ok_then _ _ s1 s' b k1 λ _ s2 e2 k2.
        ok_then _ _ s2 s' b k2 λ _ s3 e3 k3. ok_then _ _ s3 s' b k3 λ _ s4 e4 k4.
          ok_then _ _ s4 s' b k4 λ _ s5 e5 k5. ok_then _ _ s5 s' b k5 λ _ s6 e6 k6.
            ok_then _ _ s6 s' b k6 λ _ s7 e7 k7. ok_then _ _ s7 s' b k7 λ _ s8 e8 k8.
              let touched = touch_asset-ok auth t.asset_id now s s1 a e1 in
              let same2 = unchanged _ (Moves-raise_given Same-order _) s1 s2 _ e2 in
              let same3 = unchanged _ (recheck_user-Moves Same-order auth _) s2 s3 _ e3 in
              let same4 = unchanged _ (validate_destination-Moves Same-order auth _ _) s3 s4 _ e4 in
              let same : s4 ≡ s1 = same4 ∙ same3 ∙ same2 in
              let assignments : s4.assignments ≡ s.assignments =
                ap (λ z. z.assignments) same ∙ touched.2 in
              let closed =
                close_assignment-ok t.asset_id id now s4 s5 (rw assignments distinct)
                  (rw assignments one) e5 in
              let assets : s5.assets ≡ s1.assets = closed.1 ∙ ap (λ z. z.assets) same in
              let carried =
                move_asset-ok auth t a.status (target_state t) now s5 s6
                  (record a { updated_at = now }) (rw assets touched.1) (same_state_refl a.status)
                  e6 in
              let opened =
                open_assignment-ok t.asset_id t.to_user_id id new_id now s6 s7
                  (rw carried.1 closed.0) e7 in
              let done = kept _ (change_transfer-Kept auth id is_approved _ _) s7 s8 _ e8 in
              let last : s' ≡ s8 = sym (ap (λ z. z.1) k8) in
              (
                a,
                touched.0,
                rw (last, done.0, opened.1) carried.0,
                rw last (
                    ap (λ o. elim o [ none ↦ none | some x ↦ x.user_id ])
                      (ap (find_one (open_for t.asset_id)) done.1)
                    ∙ opened.0),
              )

  -- After a completion that returns, the asset is where the transfer sends it, with the status that belongs
  -- to that, and held by exactly the user of the transfer, or by nobody if it names none: if assignments
  -- have distinct ids and the asset had at most one open assignment.
  pub complete-HandedOver :
      (auth : AuthContext) (t : AssetTransfer) (id : ℕ) (remark : Option Text) (new_id now : ℕ)
      (s s' : Db) (r : AssetTransfer)
      → Distinct (λ a. a.id) s.assignments
      → count_where (open_for t.asset_id) s.assignments ≤ 1
      → require_transfer auth id s ≡ (ok t, s)
      → complete lifecycle_error auth id remark new_id now s ≡ (ok r, s')
      → HandedOver auth t s s'
  unfolding complete pure
  complete-HandedOver auth t id remark new_id now s s' r distinct one found h =
      ok_then _ _ s s' r h λ u s1 e1 k1. ok_then _ _ s1 s' r k1 λ _ s2 e2 k2.
        ok_then _ _ s2 s' r k2 λ o s3 e3 k3. ok_then _ _ s3 s' r k3 λ _ s4 e4 k4.
          ok_then _ _ s4 s' r k4 λ _ s5 e5 k5.
            let same_transfer : u ≡ t = ground (arith, e1, found) in
            let back : s1 ≡ s = ap (λ z. z.1) (sym e1 ∙ found) in
            let before : s2 ≡ s = unchanged _ (Moves-raise_if Same-order _ _) s1 s2 _ e2 ∙ back in
            let done =
              complete_body-Carried auth u id remark new_id now s2 s3 o (rw before distinct)
                (rw (before, same_transfer) one) (committed _ s2 s3 o e3) in
            let trail = kept _ (audit-Kept auth _ _ _ _) s3 s4 _ e4 in
            let event = kept _ (lifecycle_event-Kept auth _ _ _ _ _) s4 s5 _ e5 in
            let last : s' ≡ s5 = sym (ap (λ z. z.1) k5) in
            let assets : s'.assets ≡ s3.assets = ap (λ z. z.assets) last ∙ event.0 ∙ trail.0 in
            let assignments : s'.assignments ≡ s3.assignments =
              ap (λ z. z.assignments) last ∙ event.1 ∙ trail.1 in
            let (a, there, after, holder) =
              handed_frame auth t u now s2 s s3 s' same_transfer (ap (λ z. z.assets) before) assets
                assignments done in
            (a, moved t (target_state t) now a, there, after, refl, refl, refl, holder)
