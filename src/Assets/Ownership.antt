-- ===== src/Assets/Ownership.antt =====
-- What a transition leaves (assets.service.ts).
use asset_hub.Prelude.{
  ℕ, ◌≡◌, ◌≢◌, refl, Option, some, List, [], ◌∷◌, ◌++◌, ◌==◌, arith, Bool-cases, inl, inr,
}
use asset_hub.Prelude.Text.{Text}
use asset_hub.Prelude.Collection.{find_one, update_one, Distinct, All-find_one}
use asset_hub.Prelude.Action.{ok, atomically, ◌>>=◌}
use asset_hub.Models.{LifecycleState}
use asset_hub.Access.Scope.{AuthContext}
use asset_hub.Assets.Registry.{
  AssetRow, Register, Transition, own_asset, transition_body, transition_state,
}

-- What a transition adds to the history.
abbrev pub step_of : ℕ → LifecycleState → LifecycleState → ℕ → Option Text → Transition
step_of id from to actor reason = record {
  asset_id = id;
  from_state = from;
  to_state = to;
  actor_user_id = actor;
  reason = reason;
}

moved_at :
    (auth : AuthContext) (id : ℕ) (to : LifecycleState) (xs : List AssetRow) (a : AssetRow)
    → Distinct (λ x. x.id) xs
    → find_one (own_asset auth id) xs ≡ some a
    → find_one (λ x. x.id == id) (update_one (λ x. x.id == id) (λ x. record x { status = to }) xs)
      ≡ some (record a { status = to })
moved_at auth id to [] a d h = cc
moved_at auth id to (x ∷ xs) a d h = elim (Bool-cases (x.id == id)) [
  | inl e ↦ elim (Bool-cases (x.company_id == auth.company_id)) [
    | inl k ↦ ground arith
    | inr k ↦
        let later : find_one (own_asset auth id) xs ≡ some a = ground arith in
        let same : a.id ≡ x.id = own-id auth id xs a later (ground arith) in
        absurd (All-find_one (λ y. y.id ≢ x.id) (own_asset auth id) xs a d.0 later same)
  ]
  | inr e ↦
      let later : find_one (own_asset auth id) xs ≡ some a = ground arith in
      ground (arith, moved_at auth id to xs a d.1 later)
]
  where
    own-id :
        (auth : AuthContext) (id : ℕ) (ys : List AssetRow) (b : AssetRow)
        → find_one (own_asset auth id) ys ≡ some b
        → {k : ℕ} → id ≡ k
        → b.id ≡ k
    own-id auth id [] b h e = cc
    own-id auth id (y ∷ ys) b h e = elim (Bool-cases (own_asset auth id y)) [
      | inl t ↦ ground arith
      | inr f ↦ own-id auth id ys b (ground arith) e
    ]

untouched :
    (id : ℕ) (to : LifecycleState) (xs : List AssetRow) (other : ℕ)
    → other ≢ id
    → find_one
        (λ x. x.id == other)
        (update_one (λ x. x.id == id) (λ x. record x { status = to }) xs)
      ≡ find_one (λ x. x.id == other) xs
untouched id to [] other n = refl
untouched id to (x ∷ xs) other n = ground (arith, untouched id to xs other n)

-- A transition of an asset of the caller's company succeeds, from whatever status to whatever status: where ids
-- are distinct, that asset then has the new status and all else as before, every other asset is as before,
-- and the history has exactly one new entry, from the status that the asset had to the new one.
pub transition_state-logged :
    (auth : AuthContext) (id : ℕ) (to : LifecycleState) (actor : ℕ) (reason : Option Text)
    (r : Register) (a : AssetRow)
    → Distinct (λ x. x.id) r.assets
    → find_one (own_asset auth id) r.assets ≡ some a
    → let done = transition_state auth id to actor reason r in
      (done.0 ≡ ok tt)
      × (find_one (λ x. x.id == id) done.1.assets ≡ some (record a { status = to }))
      × ((other : ℕ)
          → other ≢ id
          → find_one (λ x. x.id == other) done.1.assets ≡ find_one (λ x. x.id == other) r.assets)
      × (done.1.transitions ≡ r.transitions ++ step_of id a.status to actor reason ∷ [])
unfolding transition_state transition_body atomically ◌>>=◌
transition_state-logged auth id to actor reason r a distinct found = rw found (
  refl,
  moved_at auth id to r.assets a distinct found,
  λ other n. untouched id to r.assets other n,
  refl,
)
