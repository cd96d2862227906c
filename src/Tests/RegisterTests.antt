-- ===== src/Tests/RegisterTests.antt =====
-- Runs of the asset register and its search (apps/api/src/modules/assets).
use asset_hub.Prelude.{ℕ, ◌≡◌, ◌≢◌, ◌++◌, refl, none, some, false, [], ◌∷◌, ◌==◌}
use asset_hub.Prelude.Text.{codes}
use asset_hub.Prelude.Collection.{find_one}
use asset_hub.Prelude.Action.{ok}
use asset_hub.Models.{retired, in_stock}
use asset_hub.Assets.Registry.{AssetType, AssetRow, Register, transition_state}
use asset_hub.Assets.Ownership.{step_of, transition_state-logged}
use asset_hub.Assets.Search.{Row, Searcher, Options}
use asset_hub.Tests.Data.{admin}

abbrev laptops : AssetType
laptops = record { id = 2; company_id = 10; name = codes "Laptop" }

abbrev first_laptop : AssetRow
first_laptop = record {
  id = 20;
  tenant_id = 1;
  company_id = 10;
  asset_type_id = 2;
  asset_number = codes "LAP-AC-000001";
  status = in_stock;
}

abbrev register : Register
register = record {
  types = laptops ∷ [];
  rules =
      record {
        id = 4;
        asset_type_id = 2;
        prefix = codes "LAP";
        separator = codes "-";
        padding = 6;
        next_sequence = 2;
      }
      ∷ [];
  companies = record { id = 10; code = codes "AC" } ∷ [];
  assets = first_laptop ∷ [];
  transitions = [];
}

abbrev kept_laptop : AssetRow
kept_laptop = record {
  id = 20;
  tenant_id = 1;
  company_id = 10;
  asset_type_id = 2;
  asset_number = codes "LAP-AC-000001";
  status = in_stock;
}

transition_state-logged_example :
    let done = transition_state admin 20 retired 7 none register in
    (done.0 ≡ ok tt)
    × (find_one (λ x. x.id == 20) done.1.assets ≡ some (record kept_laptop { status = retired }))
    × ((other : ℕ)
        → other ≢ 20
        → find_one (λ x. x.id == other) done.1.assets
          ≡ find_one (λ x. x.id == other) register.assets)
    × (done.1.transitions ≡ register.transitions ++ step_of 20 in_stock retired 7 none ∷ [])
transition_state-logged_example =
    transition_state-logged admin 20 retired 7 none register kept_laptop (tt, tt) refl

abbrev row : Row
row = record {
  id = 20;
  tenant_id = 1;
  company_id = 10;
  asset_number = codes "LAP-AC-000001";
  status = in_stock;
  asset_type_id = 2;
  created_at = 5;
}

abbrev searcher : Searcher
searcher = record { tenant_id = 1; company_id = some 10; cross_company = false }

abbrev options : Options
options = record {
  q = some (codes " ");
  status = none;
  asset_type_id = none;
  page = none;
  page_size = some 5000;
}
