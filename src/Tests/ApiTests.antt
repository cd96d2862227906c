-- ===== src/Tests/ApiTests.antt =====
-- A request to the API (apps/api/src/modules/*/*.controller.ts).
use asset_hub.Prelude.{◌≡◌, ap, none, some, true, [], ◌∷◌, length, arith}
use asset_hub.Prelude.Text.{codes, text_eq}
use asset_hub.Prelude.Action.{◌>>=◌}
use asset_hub.Auth.Store.{Claims, Crypto}
use asset_hub.Access.Guards.{tenant_context_guard, rbac_guard}
use asset_hub.Organization.Management.{
  remove_company, manage, delete_company, delete_company_if_empty, assert_company,
}
use asset_hub.Database.{delete_company as drop_company}
use asset_hub.Api.World.{World, on_db, guarded, Entitled}
use asset_hub.Api.Organization.{organization_permission, organization_handler}
use asset_hub.Api.Reads.{is_write_permission}
use asset_hub.Api.Server.{on_organization, permission_of, answer, answer-Entitled}
use asset_hub.Tests.Data.{empty_db, a_company}
use asset_hub.Tests.DirectoryTests.{directory, stock}

abbrev claims : Claims
claims = record {
  sub = 7;
  tenant_id = 1;
  company_id = 10;
  cross_company = none;
  permissions = some ("company:write" ∷ []);
}

abbrev crypto : Crypto
crypto = record {
  verify_password = text_eq;
  hash_token = λ t. t;
  sign = λ c. codes "jwt";
  verify = λ t. some claims;
}

abbrev one_company : World
one_company = record {
  db = record empty_db { companies = a_company ∷ [] };
  directory = directory;
  register = stock;
}

answer-Entitled_example :
    Entitled crypto (some (codes "Bearer jwt")) "company:write"
    × (is_write_permission "company:write" ≡ true)
unfolding answer permission_of organization_permission organization_handler guarded on_db
    tenant_context_guard rbac_guard manage delete_company delete_company_if_empty drop_company
    assert_company ◌>>=◌
answer-Entitled_example =
    answer-Entitled crypto (λ t. true) (λ t. t) (some (codes "Bearer jwt"))
      (on_organization (remove_company 10)) 1000 one_company
      (λ h. omega (arith, ap (λ w. length w.db.companies) h))
