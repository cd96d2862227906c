-- ===== src/Tenancy/Roles.antt =====
-- Roles and their permissions (rbac.service.ts).
use asset_hub.Prelude.{
  ℕ, none, some, Bool, false, ◌&&◌, List, [], ◌∷◌, ◌++◌, ◌==◌, any, String, map, is_id,
  if◌then◌else◌,
}
use asset_hub.Prelude.Text.{Text}
use asset_hub.Prelude.Collection.{find_all}
use asset_hub.Prelude.Action.{Action, pure, gets, modify, raise_if, failure, ◌>>=◌, ◌>>◌}
use text.Mathlib.Text.{◌==◌ as str_eq}
use asset_hub.Access.Scope.{AuthContext}
use asset_hub.Tenancy.Directory.{Directory, Permission, RoleRow, UserRole, require}

unfoldable pub list_permissions : Directory → List Permission
list_permissions d = d.permissions

abbrev pub role_visible : AuthContext → RoleRow → Bool
role_visible auth r =
    if auth.cross_company
    then r.tenant_id == auth.tenant_id
    else r.tenant_id == auth.tenant_id && is_id r.company_id auth.company_id

-- The rows of the permissions of a role.
abbrev pub permissions_of : RoleRow → Directory → List Permission
permissions_of r d =
    find_all (λ p. any (λ x. x.role_id == r.id && x.permission_id == p.id) d.role_permissions)
      d.permissions

unfoldable pub list_roles : AuthContext → Directory → List (RoleRow × List Permission)
list_roles auth d = map (λ r. (r, permissions_of r d)) (find_all (role_visible auth) d.roles)

-- `{ key: { in: permissionKeys } }`
abbrev pub asked_for : List String → Permission → Bool
asked_for keys p = any (str_eq p.key) keys

unfoldable pub create_role : AuthContext → Text → List String → ℕ → Action Directory RoleRow
create_role auth name permission_keys new_id = do
  perms ← gets λ d. find_all (asked_for permission_keys) d.permissions
  let role : RoleRow = record {
    id = new_id;
    tenant_id = auth.tenant_id;
    company_id = if auth.cross_company then none else some auth.company_id;
    name = name;
    is_system = false;
  }
  modify λ d. record d {
    roles = d.roles ++ role ∷ [];
    role_permissions =
        d.role_permissions ++ map (λ p. record { role_id = new_id; permission_id = p.id }) perms;
  }
  pure role

-- The service takes no context of the caller.
unfoldable pub assign_role : ℕ → ℕ → Action Directory UserRole
assign_role user_id role_id = do
  require λ d. any (λ u. u.id == user_id) d.users
  require λ d. any (λ r. r.id == role_id) d.roles
  taken ← gets λ d. any (λ x. x.user_id == user_id && x.role_id == role_id) d.user_roles
  raise_if taken (failure "Unique constraint failed on userId and roleId")
  let row : UserRole = record { user_id = user_id; role_id = role_id }
  modify λ d. record d { user_roles = d.user_roles ++ row ∷ [] }
  pure row

-- Whether a user has a permission through some role, as `resolvePermissions` collects it.
abbrev pub role_has : Directory → ℕ → ℕ → Bool
role_has d role_id permission_id =
    any (λ x. x.role_id == role_id && x.permission_id == permission_id) d.role_permissions

abbrev pub user_has : Directory → ℕ → ℕ → Bool
user_has d user_id permission_id =
    any (λ x. x.user_id == user_id && role_has d x.role_id permission_id) d.user_roles
