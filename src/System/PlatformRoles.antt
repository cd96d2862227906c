-- ===== src/System/PlatformRoles.antt =====
-- Platform users and their roles (system-admin.service.ts, `platformUsers`, `platformRoles`,
-- `setPlatformUserRoles`), before the sorts by name. The flag `isSystem` of a role is left out. An id is
-- a number, so every id has the form that `Types.ObjectId.isValid` asks for.
use asset_hub.Prelude.{
  ℕ, Option, none, some, Bool, not, ◌&&◌, ◌||◌, List, [], ◌∷◌, ◌==◌, length, any, String, map,
}
use asset_hub.Prelude.Text.{Text, codes, text_eq, starts_with}
use asset_hub.Prelude.Members.{has}
use asset_hub.Prelude.Collection.{find_one, find_all}
use asset_hub.Prelude.Action.{
  Action, pure, gets, or_raise, raise_if, not_found, bad_request, ◌>>=◌, ◌>>◌,
}
use text.Mathlib.Text.{◌==◌ as str_eq}
use asset_hub.Models.{Db, User, Role}
use asset_hub.Database.{update_user}
use asset_hub.Users.Accounts.{is_tenant_account, unique_ids}

-- `'permissions.permissionKey': { $regex: '^platform:' }`
unfoldable pub is_platform_key : String → Bool
is_platform_key key = starts_with (codes "platform:") (codes key)

abbrev pub is_platform_role : Role → Bool
is_platform_role r = any is_platform_key r.permissions

abbrev pub grants_console : Role → Bool
grants_console r = any (str_eq "platform:console:access") r.permissions

pub record PlatformRole : Type 0 where
  pub id : ℕ
  pub name : Text
  pub permissions : List String

abbrev pub role_view : Role → PlatformRole
role_view r = record { id = r.id; name = r.name; permissions = r.permissions }

pub record PlatformUser : Type 0 where
  pub id : ℕ
  pub email : Text
  pub first_name : Text
  pub last_name : Text
  pub is_active : Bool
  pub role_ids : List ℕ
  pub roles : List PlatformRole

-- `.map((id) => roleMap.get(String(id))).filter(Boolean)`: ids of documents are unique.
unfoldable pub named_roles : List Role → List ℕ → List PlatformRole
named_roles roles [] = []
named_roles roles (i ∷ is) =
    let rest = named_roles roles is in
    elim (find_one (λ r. r.id == i) roles) [ none ↦ rest | some r ↦ role_view r ∷ rest ]

abbrev pub platform_user : List Role → User → PlatformUser
platform_user roles u = record {
  id = u.id;
  email = u.email;
  first_name = u.first_name;
  last_name = u.last_name;
  is_active = u.is_active;
  role_ids = u.role_ids;
  roles = named_roles roles u.role_ids;
}

unfoldable pub platform_users : Db → List PlatformUser
unfolding named_roles
platform_users db =
    map (platform_user (find_all is_platform_role db.roles))
      (find_all (λ u. not (is_tenant_account u.account_type)) db.users)

unfoldable pub platform_roles : Db → List PlatformRole
platform_roles db =
    map role_view
      (find_all (λ r. text_eq r.name (codes "Platform Admin") || is_platform_role r) db.roles)

-- `{ _id: userId, accountType: 'SYSTEM' }`
abbrev pub system_account : ℕ → User → Bool
system_account user_id u = u.id == user_id && not (is_tenant_account u.account_type)

pub record RolesAnswer : Type 0 where
  pub user_id : ℕ
  pub role_ids : List ℕ
  pub actor_user_id : Option ℕ

unfoldable pub set_platform_user_roles : ℕ → List ℕ → Option ℕ → Action Db RolesAnswer
unfolding unique_ids
set_platform_user_roles user_id role_ids actor = do
  user ←
      or_raise (← gets λ db. find_one (system_account user_id) db.users)
        (not_found "Platform user not found")
  let normalized = unique_ids [] role_ids
  roles ← gets λ db. find_all (λ r. has r.id normalized && is_platform_role r) db.roles
  raise_if (not (length roles == length normalized))
      (bad_request "One or more roles are not platform roles")
  raise_if (not (any grants_console roles))
      (bad_request "At least one selected role must grant platform console access")
  update_user (λ u. u.id == user.id) (λ u. record u { role_ids = normalized })
  pure (record { user_id = user_id; role_ids = normalized; actor_user_id = actor })
