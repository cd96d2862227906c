-- ===== src/Assets/Numbering.antt =====
-- The numbers of the assets of a type (assets.service.ts, `generateAssetNumber`).
use asset_hub.Prelude.{
  ℕ, zero, suc, ◌+◌, ◌-◌, ◌≡◌, refl, sym, ◌∙◌, ap, Option, some, [], ◌∷◌, ◌++◌, ◌==◌, arith,
  Option-cases, inl, inr, length, get_or,
}
use asset_hub.Prelude.Text.{Text, decimal}
use asset_hub.Prelude.Decimal.{read_from, read-decimal}
use asset_hub.Prelude.Collection.{find_one, update_one}
use asset_hub.Prelude.Action.{ok, atomically, ◌>>=◌}
use asset_hub.Access.Scope.{AuthContext}
use asset_hub.Assets.Registry.{
  NumberingRule, AssetType, CompanyRow, AssetRow, Register, Fields, padded, asset_number_of, zeros,
  generate_asset_number, create_asset_body, create_asset,
}

read-zeros : (k : ℕ) (t : Text) → read_from 0 (zeros k ++ t) ≡ read_from 0 t
unfolding read_from
read-zeros zero t = refl
read-zeros (suc k) t = read-zeros k t

read-padded : (width n : ℕ) → read_from 0 (padded width n) ≡ n
unfolding padded
read-padded width n = read-zeros (width - length (decimal n)) (decimal n) ∙ read-decimal n

drop_same : (s t u : Text) → s ++ t ≡ s ++ u → t ≡ u
drop_same [] t u h = h
drop_same (c ∷ s) t u h = drop_same s t u (ground arith)

-- Two rules that differ in the sequence alone give different numbers.
abbrev pub at_sequence : ℕ → NumberingRule → NumberingRule
at_sequence n x = record x { next_sequence = n }

pub same_number :
    (x : NumberingRule) (code : Text) (n m : ℕ)
    → asset_number_of (at_sequence n x) code ≡ asset_number_of (at_sequence m x) code
    → n ≡ m
unfolding asset_number_of
same_number x code n m h =
    let a = drop_same x.prefix _ _ h in
    let b = drop_same x.separator _ _ a in
    let c = drop_same code _ _ b in
    let d : padded x.padding n ≡ padded x.padding m = drop_same x.separator _ _ c in
    sym (read-padded x.padding n) ∙ ap (read_from 0) d ∙ read-padded x.padding m

-- The rule of a type, and the code of the company of a type.
abbrev pub rule_of : ℕ → Register → Option NumberingRule
rule_of type_id r = find_one (λ x. x.asset_type_id == type_id) r.rules

abbrev pub type_of : ℕ → Register → Option AssetType
type_of type_id r = find_one (λ t. t.id == type_id) r.types

abbrev pub company_at : ℕ → Register → Option CompanyRow
company_at id r = find_one (λ c. c.id == id) r.companies

-- What a creation that returns has done: it took the number of the rule, and the rule is one further.
pub create_asset-number :
    (auth : AuthContext) (type_id : ℕ) (fields : Fields) (new_id : ℕ) (r r' : Register)
    (a : AssetRow)
    → create_asset auth type_id fields new_id r ≡ (ok a, r')
    → (x : NumberingRule) × (t : AssetType) × (c : CompanyRow) × (rule_of type_id r ≡ some x)
      × (type_of type_id r ≡ some t)
      × (company_at t.company_id r ≡ some c)
      × (a.asset_number ≡ get_or fields.asset_number (asset_number_of x c.code))
      × (r'.rules ≡ update_one (λ y. y.id == x.id) (at_sequence (x.next_sequence + 1)) r.rules)
      × (r'.types ≡ r.types)
      × (r'.companies ≡ r.companies)
unfolding create_asset create_asset_body generate_asset_number atomically ◌>>=◌
create_asset-number auth type_id fields new_id r r' a h = elim (Option-cases (type_of type_id r)) [
  | inl e ↦ absurd (ground arith)
  | inr (t, et) ↦ elim (Option-cases (rule_of type_id r)) [
    | inl e ↦ absurd (ground arith)
    | inr (x, ex) ↦ elim (Option-cases (company_at t.company_id r)) [
      | inl e ↦ absurd (ground arith)
      | inr (c, ec) ↦ (x, t, c, ex, et, ec, ground arith, ground arith, ground arith, ground arith)
    ]
  ]
]
