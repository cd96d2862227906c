-- ===== src/Api/Reads.antt =====
-- The routes that only read (apps/api/src/modules/*/*.controller.ts).
use asset_hub.Prelude.{ℕ, ◌≡◌, ◌⊎◌, refl, inl, inr, Bool, true, ◌∷◌, [], any, String}
use asset_hub.Prelude.Text.{Text}
use asset_hub.Prelude.Action.{raise}
use asset_hub.Prelude.Action.Moves.{Moves, moves_rules, Moves-gets}
use asset_hub.Prelude.Action.Atomic.{Same, Same-order}
use asset_hub.Access.Scope.{AuthContext}
use text.Mathlib.Text.{◌==◌ as str_eq}
use asset_hub.Users.Accounts.{require_user, get_user}
use asset_hub.Users.Credentials.{sessions_of}
use asset_hub.Tenancy.Creation.{list_companies}
use asset_hub.Api.World.{World, on_db-Same, on_directory-Same, on_register-Same}
use asset_hub.Api.Users.{
  UserRoute, list_all, get_one, sessions, login_history, create_one, update_one, put_roles,
  access_link, activate, deactivate, revoke_session, user_permission, user_handler,
}
use asset_hub.Api.Directory.{
  CompanyRoute, companies, new_company, units_of, sites_of, locations_of, departments_of, new_unit,
  new_site, new_location, new_department, company_permission, company_handler, RoleRoute,
  permissions, roles, new_role, assign, role_permission, role_handler,
}
use asset_hub.Api.Assets.{
  AssetRoute, assets, types, new_type, new_asset_of, transition, asset_permission, asset_handler,
}

abbrev pub is_write_permission : String → Bool
is_write_permission p =
    any (str_eq p) ("user:write" ∷ "role:write" ∷ "company:write" ∷ "asset:write" ∷ [])

require_user-Same : (auth : AuthContext) (id : ℕ) → Moves Same (require_user auth id)
unfolding require_user
require_user-Same auth id = search (moves_rules, Same-order)

get_user-Same : (auth : AuthContext) (id : ℕ) → Moves Same (get_user auth id)
unfolding get_user
get_user-Same auth id = search (moves_rules, Same-order, require_user-Same)

sessions_of-Same : (auth : AuthContext) (id : ℕ) → Moves Same (sessions_of auth id)
unfolding sessions_of
sessions_of-Same auth id = search (moves_rules, Same-order, require_user-Same) depth 7

list_companies-Same : (auth : AuthContext) → Moves Same (list_companies auth)
unfolding list_companies
list_companies-Same auth = search (moves_rules, Same-order) depth 7

-- A route asks for a permission to write, or changes nothing.
pub user_route_reads :
    (is_email : Text → Bool) (sha256 : Text → Text) (r : UserRoute) (now : ℕ) (w : World)
    → (is_write_permission (user_permission r) ≡ true)
      ⊎ ((auth : AuthContext) → (user_handler is_email sha256 r now auth w).1 ≡ w)
unfolding user_permission user_handler
user_route_reads e s list_all now w = inr λ auth. on_db-Same _ (Moves-gets Same-order _) w
user_route_reads e s (get_one id) now w = inr λ auth. on_db-Same _ (get_user-Same auth id) w
user_route_reads e s (sessions id) now w = inr λ auth. on_db-Same _ (sessions_of-Same auth id) w
user_route_reads e s (login_history id) now w =
    inr λ auth. on_db-Same _ (require_user-Same auth id) w
user_route_reads e s (create_one dto id) now w = inl refl
user_route_reads e s (update_one id dto) now w = inl refl
user_route_reads e s (put_roles id ids) now w = inl refl
user_route_reads e s (access_link id token) now w = inl refl
user_route_reads e s (activate id) now w = inl refl
user_route_reads e s (deactivate id) now w = inl refl
user_route_reads e s (revoke_session id x) now w = inl refl

pub company_route_reads :
    (r : CompanyRoute) (w : World)
    → (is_write_permission (company_permission r) ≡ true)
      ⊎ ((auth : AuthContext) → (company_handler r auth w).1 ≡ w)
unfolding company_permission company_handler raise
company_route_reads companies w = inr λ auth. on_directory-Same _ (list_companies-Same auth) w
company_route_reads (new_company name code id) w = inl refl
company_route_reads (units_of id) w = inr λ auth. refl
company_route_reads (sites_of id) w = inr λ auth. refl
company_route_reads (locations_of id) w = inr λ auth. refl
company_route_reads (departments_of id) w = inr λ auth. refl
company_route_reads (new_unit parent name id) w = inl refl
company_route_reads (new_site parent name id) w = inl refl
company_route_reads (new_location parent name id) w = inl refl
company_route_reads (new_department parent name id) w = inl refl

pub role_route_reads :
    (r : RoleRoute) (w : World)
    → (is_write_permission (role_permission r) ≡ true)
      ⊎ ((auth : AuthContext) → (role_handler r auth w).1 ≡ w)
unfolding role_permission role_handler
role_route_reads permissions w = inr λ auth. on_directory-Same _ (Moves-gets Same-order _) w
role_route_reads roles w = inr λ auth. on_directory-Same _ (Moves-gets Same-order _) w
role_route_reads (new_role name keys id) w = inl refl
role_route_reads (assign role_id user_id) w = inl refl

pub asset_route_reads :
    (r : AssetRoute) (w : World)
    → (is_write_permission (asset_permission r) ≡ true)
      ⊎ ((auth : AuthContext) → (asset_handler r auth w).1 ≡ w)
unfolding asset_permission asset_handler
asset_route_reads assets w = inr λ auth. on_register-Same _ (Moves-gets Same-order _) w
asset_route_reads types w = inr λ auth. on_register-Same _ (Moves-gets Same-order _) w
asset_route_reads (new_type name prefix separator padding type_id rule_id) w = inl refl
asset_route_reads (new_asset_of type_id fields id) w = inl refl
asset_route_reads (transition id to reason) w = inl refl
