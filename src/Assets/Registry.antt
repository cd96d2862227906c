-- ===== src/Assets/Registry.antt =====
-- Creation and transitions of assets (apps/api/src/modules/assets/assets.service.ts). The row-level
-- security of the database is left out: this is what the application checks. The lock on the rule of
-- a type lasts for the transaction, so that creations run one after the other.
use asset_hub.Prelude.{
  ℕ, ⊤, suc, ◌+◌, ◌-◌, Option, Bool, not, any, ◌&&◌, ◌||◌, List, [], ◌∷◌, ◌++◌, ◌==◌, get_or,
  length, zero,
}
use asset_hub.Prelude.Text.{text_eq, Text, codes, decimal}
use asset_hub.Prelude.Collection.{find_one, find_all, update_one}
use asset_hub.Prelude.Action.{
  Action, pure, gets, modify, or_raise, raise_if, atomically, forbidden, not_found, failure, ◌>>=◌,
  ◌>>◌,
}
use asset_hub.Models.{LifecycleState, in_stock}
use asset_hub.Access.Scope.{AuthContext, scope, passes}

pub record AssetType : Type 0 where
  pub id : ℕ
  pub company_id : ℕ
  pub name : Text

pub record NumberingRule : Type 0 where
  pub id : ℕ
  pub asset_type_id : ℕ
  pub prefix : Text
  pub separator : Text
  pub padding : ℕ
  pub next_sequence : ℕ

pub record CompanyRow : Type 0 where
  pub id : ℕ
  pub code : Text

pub record AssetRow : Type 0 where
  pub id : ℕ
  pub tenant_id : ℕ
  pub company_id : ℕ
  pub asset_type_id : ℕ
  pub asset_number : Text
  pub status : LifecycleState

pub record Transition : Type 0 where
  pub asset_id : ℕ
  pub from_state : LifecycleState
  pub to_state : LifecycleState
  pub actor_user_id : ℕ
  pub reason : Option Text

pub record Register : Type 0 where
  pub types : List AssetType
  pub rules : List NumberingRule
  pub companies : List CompanyRow
  pub assets : List AssetRow
  pub transitions : List Transition

-- `listAssets`, before the sort by time.
unfoldable pub registered_assets : AuthContext → Register → List AssetRow
registered_assets auth r = find_all (λ a. passes (scope auth) a.tenant_id a.company_id) r.assets

unfoldable pub list_asset_types : AuthContext → Register → List AssetType
list_asset_types auth r = find_all (λ t. t.company_id == auth.company_id) r.types

-- The type and its rule are created together.
unfoldable pub create_asset_type :
    AuthContext → Text → Text → Option Text → Option ℕ → ℕ → ℕ → Action Register ⊤
create_asset_type auth name prefix separator padding type_id rule_id = modify λ r. record r {
  types = r.types ++ record { id = type_id; company_id = auth.company_id; name = name } ∷ [];
  rules =
      r.rules
      ++ record {
        id = rule_id;
        asset_type_id = type_id;
        prefix = prefix;
        separator = get_or separator (codes "-");
        padding = get_or padding 6;
        next_sequence = 1;
      }
        ∷ [];
}

abbrev pub zeros : ℕ → Text
zeros zero = []
zeros (suc n) = b'0' ∷ zeros n

-- `String(n).padStart(width, '0')`
unfoldable pub padded : ℕ → ℕ → Text
padded width n = zeros (width - length (decimal n)) ++ decimal n

unfoldable pub asset_number_of : NumberingRule → Text → Text
asset_number_of rule code =
    rule.prefix
    ++ (rule.separator ++ (code ++ (rule.separator ++ padded rule.padding rule.next_sequence)))

unfoldable pub generate_asset_number : ℕ → Action Register Text
generate_asset_number asset_type_id = do
  rule ←
      or_raise (← gets (λ r. find_one (λ x. x.asset_type_id == asset_type_id) r.rules))
        (not_found "No numbering rule configured for this asset type")
  modify (λ r. record r {
    rules =
        update_one (λ x. x.id == rule.id) (λ x. record x { next_sequence = rule.next_sequence + 1 })
          r.rules;
  })
  asset_type ←
      or_raise (← gets (λ r. find_one (λ t. t.id == asset_type_id) r.types))
        (failure "No AssetType found")
  company ←
      or_raise (← gets (λ r. find_one (λ c. c.id == asset_type.company_id) r.companies))
        (failure "No Company found")
  pure (asset_number_of rule company.code)

-- The entries of `fields` that name a column of the row: they are spread after the columns that the
-- service sets.
pub record Fields : Type 0 where
  pub id : Option ℕ
  pub tenant_id : Option ℕ
  pub company_id : Option ℕ
  pub asset_type_id : Option ℕ
  pub asset_number : Option Text
  pub status : Option LifecycleState

abbrev pub new_asset : AuthContext → ℕ → Text → Fields → ℕ → AssetRow
new_asset auth asset_type_id number fields id = record {
  id = get_or fields.id id;
  tenant_id = get_or fields.tenant_id auth.tenant_id;
  company_id = get_or fields.company_id auth.company_id;
  asset_type_id = get_or fields.asset_type_id asset_type_id;
  asset_number = get_or fields.asset_number number;
  status = get_or fields.status in_stock;
}

-- The primary key and the unique index on the company and the number.
abbrev pub collides : AssetRow → AssetRow → Bool
collides a x =
    x.id == a.id || (x.company_id == a.company_id && text_eq x.asset_number a.asset_number)

unfoldable pub create_asset_body : AuthContext → ℕ → Fields → ℕ → Action Register AssetRow
create_asset_body auth asset_type_id fields new_id = do
  asset_type ←
      or_raise (← gets (λ r. find_one (λ t. t.id == asset_type_id) r.types))
        (failure "No AssetType found")
  raise_if (not (asset_type.company_id == auth.company_id))
      (forbidden "assetTypeId does not belong to your company")
  number ← generate_asset_number asset_type_id
  let a = new_asset auth asset_type_id number fields new_id
  taken ← gets (λ r. any (collides a) r.assets)
  raise_if taken (failure "Unique constraint failed")
  modify (λ r. record r { assets = r.assets ++ a ∷ [] })
  pure a

unfoldable pub create_asset : AuthContext → ℕ → Fields → ℕ → Action Register AssetRow
create_asset auth asset_type_id fields new_id =
    atomically (create_asset_body auth asset_type_id fields new_id)

abbrev pub own_asset : AuthContext → ℕ → AssetRow → Bool
own_asset auth asset_id a = a.id == asset_id && a.company_id == auth.company_id

unfoldable pub transition_body :
    AuthContext → ℕ → LifecycleState → ℕ → Option Text → Action Register ⊤
transition_body auth asset_id to_state actor reason = do
  asset ←
      or_raise (← gets (λ r. find_one (own_asset auth asset_id) r.assets))
        (failure "No Asset found")
  modify (λ r. record r {
    assets = update_one (λ a. a.id == asset_id) (λ a. record a { status = to_state }) r.assets;
    transitions =
        r.transitions
        ++ record {
          asset_id = asset_id;
          from_state = asset.status;
          to_state = to_state;
          actor_user_id = actor;
          reason = reason;
        }
          ∷ [];
  })

unfoldable pub transition_state :
    AuthContext → ℕ → LifecycleState → ℕ → Option Text → Action Register ⊤
transition_state auth asset_id to_state actor reason =
    atomically (transition_body auth asset_id to_state actor reason)
