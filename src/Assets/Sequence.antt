-- ===== src/Assets/Sequence.antt =====
-- No number is given twice (assets.service.ts, `createAsset`).
use asset_hub.Prelude.{
  ℕ, ◌+◌, ◌≡◌, ◌≢◌, ◌≤◌, refl, sym, ◌∙◌, ap, Option, none, some, List, [], ◌∷◌, ◌==◌, arith,
  Bool-cases, Option-cases, inl, inr, ⊤, get_or,
}
use asset_hub.Prelude.Text.{Text}
use asset_hub.Prelude.Collection.{find_one, Distinct}
use asset_hub.Prelude.Distinct.{Distinct-update_one, Distinct-same, find_one-update_id}
use asset_hub.Prelude.Action.{Action, Result, ok, err, pure, atomically, Error, continue, ◌>>=◌}
use asset_hub.Prelude.Action.Atomic.{Atomic-atomically}
use asset_hub.Models.{LifecycleState}
use asset_hub.Access.Scope.{AuthContext}
use asset_hub.Assets.Registry.{
  NumberingRule, AssetType, CompanyRow, AssetRow, Register, Fields, create_asset, create_asset_body,
  transition_state, transition_body, asset_number_of, own_asset,
}
use asset_hub.Assets.Numbering.{
  rule_of, type_of, company_at, at_sequence, create_asset-number, same_number,
}

-- A creation or a transition by anyone.
pub data Call : Type 0 where
  add : AuthContext → ℕ → Fields → ℕ → Call
  move : AuthContext → ℕ → LifecycleState → ℕ → Option Text → Call

unfoldable pub serve : Call → Action Register ⊤
serve (add auth type_id fields new_id) = create_asset auth type_id fields new_id >>= λ _. pure tt
serve (move auth id to actor reason) = transition_state auth id to actor reason

-- A call that throws is answered by an error, and the next one is served.
unfoldable pub serve_all : List Call → Register → Register
unfolding serve
serve_all [] r = r
serve_all (c ∷ cs) r = serve_all cs (serve c r).1

-- The type still has its company and its rule, which is at the sequence number or further.
abbrev pub Beyond : ℕ → NumberingRule → AssetType → CompanyRow → ℕ → Register → Type 0
Beyond type_id x t c n r =
    (m : ℕ) × (n ≤ m)
    × (rule_of type_id r ≡ some (at_sequence m x))
    × (type_of type_id r ≡ some t)
    × (company_at t.company_id r ≡ some c)
    × Distinct (λ y. y.id) r.rules

-- A creation, for this or another type, puts the rule further or leaves it.
create_asset-Beyond :
    (type_id : ℕ) (x : NumberingRule) (t : AssetType) (c : CompanyRow) (n : ℕ) (auth : AuthContext)
    (other : ℕ) (fields : Fields) (new_id : ℕ) (r r' : Register) (a : AssetRow)
    → create_asset auth other fields new_id r ≡ (ok a, r')
    → Beyond type_id x t c n r
    → Beyond type_id x t c n r'
create_asset-Beyond type_id x t c n auth other fields new_id r r' a h
      (m, le, rule, type, company, d) =
    let (y, _, _, ey, _, _, _, rules, types, companies) =
      create_asset-number auth other fields new_id r r' a h in
    let now =
      find_one-update_id (λ z. z.id) (λ z. z.asset_type_id == type_id)
        (at_sequence (y.next_sequence + 1)) y.id r.rules (at_sequence m x) d (λ z. refl) rule in
    let distinct =
      Distinct-update_one (λ z. z.id) (λ z. z.id == y.id) (at_sequence (y.next_sequence + 1))
        r.rules (λ z. refl) d in
    elim (Bool-cases (x.id == y.id)) [
      | inl e ↦
          let same : at_sequence m x ≡ y =
            Distinct-same (λ z. z.id) _ _ r.rules (at_sequence m x) y d rule ey (ground arith) in
          let at : m ≡ y.next_sequence = ap (λ z. z.next_sequence) same in
          (
            y.next_sequence + 1,
            omega (arith, le, at),
            rw rules (now ∙ rw e refl),
            rw types type,
            rw companies company,
            rw rules distinct,
          )
      | inr e ↦ (
        m,
        le,
        rw rules (now ∙ rw e refl),
        rw types type,
        rw companies company,
        rw rules distinct,
      )
    ]

-- A transition leaves rules, types and companies alone, whether it returns or throws.
transition-kept :
    (auth : AuthContext) (id : ℕ) (to : LifecycleState) (actor : ℕ) (reason : Option Text)
    (r : Register)
    → let r' = (transition_state auth id to actor reason r).1 in
      (r'.rules ≡ r.rules) × (r'.types ≡ r.types) × (r'.companies ≡ r.companies)
unfolding transition_state transition_body atomically ◌>>=◌
transition-kept auth id to actor reason r =
    elim (Option-cases (find_one (own_asset auth id) r.assets)) [
      | inl e ↦ rw e (refl, refl, refl)
      | inr (a, e) ↦ rw e (refl, refl, refl)
    ]

rolled_back :
    (auth : AuthContext) (type_id : ℕ) (fields : Fields) (new_id : ℕ) (e : Error) (r s : Register)
    → create_asset auth type_id fields new_id r ≡ (err e, s)
    → s ≡ r
unfolding create_asset
rolled_back auth type_id fields new_id e r s h =
    sym (ap (λ z. z.1) h)
    ∙ (Atomic-atomically (create_asset_body auth type_id fields new_id)).at r e (ap (λ z. z.0) h)

serve-Beyond :
    (type_id : ℕ) (x : NumberingRule) (t : AssetType) (c : CompanyRow) (n : ℕ) (call : Call)
    (r : Register)
    → Beyond type_id x t c n r
    → Beyond type_id x t c n (serve call r).1
unfolding serve pure ◌>>=◌
serve-Beyond type_id x t c n (add auth other fields new_id) r b =
    go (create_asset auth other fields new_id r) refl
  where
    go :
        (o : Result AssetRow × Register)
        → create_asset auth other fields new_id r ≡ o
        → Beyond type_id x t c n (continue (λ _. pure tt) o).1
    go (ok a, r') h = create_asset-Beyond type_id x t c n auth other fields new_id r r' a h b
    go (err e, r') h = rw (rolled_back auth other fields new_id e r r' h) b
serve-Beyond type_id x t c n (move auth id to actor reason) r (m, le, rule, type, company, d) =
    let (rules, types, companies) = transition-kept auth id to actor reason r in
    (m, le, rw rules rule, rw types type, rw companies company, rw rules d)

serve_all-Beyond :
    (type_id : ℕ) (x : NumberingRule) (t : AssetType) (c : CompanyRow) (n : ℕ) (calls : List Call)
    (r : Register)
    → Beyond type_id x t c n r
    → Beyond type_id x t c n (serve_all calls r)
unfolding serve_all
serve_all-Beyond type_id x t c n [] r b = b
serve_all-Beyond type_id x t c n (call ∷ calls) r b =
    serve_all-Beyond type_id x t c n calls (serve call r).1 (serve-Beyond type_id x t c n call r b)

-- Two assets of a type that are created with the numbers of its rule have different numbers, whatever
-- creations and transitions run in between, if the rules have distinct ids.
pub numbers_differ :
    (auth auth' : AuthContext) (type_id : ℕ) (fields fields' : Fields) (id id' : ℕ)
    (calls : List Call) (r r1 r2 : Register) (a a' : AssetRow)
    → Distinct (λ y. y.id) r.rules
    → fields.asset_number ≡ none
    → fields'.asset_number ≡ none
    → create_asset auth type_id fields id r ≡ (ok a, r1)
    → create_asset auth' type_id fields' id' (serve_all calls r1) ≡ (ok a', r2)
    → a.asset_number ≢ a'.asset_number
numbers_differ auth auth' type_id fields fields' id id' calls r r1 r2 a a' d none1 none2 h h'
      equal =
    let (x, t, c, rule, type, company, number, rules, types, companies) =
      create_asset-number auth type_id fields id r r1 a h in
    let (y, u, k, rule', type', company', number', _, _, _) =
      create_asset-number auth' type_id fields' id' (serve_all calls r1) r2 a' h' in
    let first : Beyond type_id x t c (x.next_sequence + 1) r1 = (
      x.next_sequence + 1,
      omega arith,
      rw rules (
          find_one-update_id (λ z. z.id) (λ z. z.asset_type_id == type_id)
            (at_sequence (x.next_sequence + 1)) x.id r.rules x d (λ z. refl) rule
          ∙ ground arith),
      rw types type,
      rw companies company,
      rw rules (
          Distinct-update_one (λ z. z.id) (λ z. z.id == x.id) (at_sequence (x.next_sequence + 1))
            r.rules (λ z. refl) d),
    ) in
    let (m, le, later, type2, company2, _) =
      serve_all-Beyond type_id x t c (x.next_sequence + 1) calls r1 first in
    let same_rule : y ≡ at_sequence m x = ground arith in
    let same_type : u ≡ t = ground arith in
    let same_company : k ≡ c = ground (arith, same_type) in
    let one : a.asset_number ≡ asset_number_of x c.code =
      number ∙ ap (λ o. get_or o (asset_number_of x c.code)) none1 in
    let two : a'.asset_number ≡ asset_number_of (at_sequence m x) c.code =
      number'
      ∙ ap (λ o. get_or o (asset_number_of y k.code)) none2
      ∙ ap (λ z. asset_number_of z k.code) same_rule
      ∙ ap (λ z. asset_number_of (at_sequence m x) z.code) same_company in
    let numbers : asset_number_of x c.code ≡ asset_number_of (at_sequence m x) c.code =
      sym one ∙ equal ∙ two in
    omega (arith, le, same_number x c.code x.next_sequence m numbers)
