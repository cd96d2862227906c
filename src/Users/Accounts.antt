-- ===== src/Users/Accounts.antt =====
-- Reading, creating and changing users (users.service.ts). Ids are valid by their type; the unique
-- index on the email and the required fields of models/user.schemas.ts are checks before a write.
use asset_hub.Prelude.{
  ℕ, ⊤, Option, none, some, Bool, true, false, not, ◌&&◌, ◌||◌, List, [], ◌∷◌, ◌++◌, ◌==◌, given,
  is_id, get_or, or_else, any, length, map, if◌then◌else◌,
}
use asset_hub.Prelude.Text.{Text, text_eq, trim, to_lower, trimmed}
use asset_hub.Prelude.Collection.{find_one, find_all}
use asset_hub.Prelude.Action.{
  Action, pure, gets, or_raise, raise_if, not_found, conflict, failure, ◌>>=◌, ◌>>◌,
}
use asset_hub.Models.{Db, User, AccountType, Role}
use asset_hub.Database.{create_user, update_user}
use asset_hub.Access.Scope.{AuthContext, Scope, scope, passes}

-- A user without its secrets.
pub record SafeUser : Type 0 where
  pub id : ℕ
  pub tenant_id : ℕ
  pub company_id : ℕ
  pub email : Text
  pub first_name : Text
  pub last_name : Text
  pub job_title : Option Text
  pub phone : Option Text
  pub is_active : Bool
  pub force_password_reset : Bool
  pub role_ids : List ℕ
  pub department_id : Option ℕ
  pub location_id : Option ℕ

abbrev pub safe : User → SafeUser
safe u = record {
  id = u.id;
  tenant_id = u.tenant_id;
  company_id = u.company_id;
  email = u.email;
  first_name = u.first_name;
  last_name = u.last_name;
  job_title = u.job_title;
  phone = u.phone;
  is_active = u.is_active;
  force_password_reset = u.force_password_reset;
  role_ids = u.role_ids;
  department_id = u.department_id;
  location_id = u.location_id;
}

abbrev pub is_tenant_account : AccountType → Bool
is_tenant_account AccountType.tenant = true
is_tenant_account AccountType.system = false

-- `{ ...this.scope(auth), accountType: 'TENANT' }`
abbrev pub in_reach : AuthContext → User → Bool
in_reach auth u = passes (scope auth) u.tenant_id u.company_id && is_tenant_account u.account_type

-- `{ _id: userId, ...this.scope(auth), accountType: 'TENANT' }`
abbrev pub reachable : AuthContext → ℕ → User → Bool
reachable auth user_id u = u.id == user_id && in_reach auth u

-- `list`, before the sort by name.
unfoldable pub list_users : AuthContext → Db → List SafeUser
list_users auth db = map safe (find_all (in_reach auth) db.users)

unfoldable pub require_user : AuthContext → ℕ → Action Db User
require_user auth user_id = do
  or_raise (← gets (λ db. find_one (reachable auth user_id) db.users)) (not_found "User not found")

unfoldable pub get_user : AuthContext → ℕ → Action Db SafeUser
get_user auth user_id = do doc ← require_user auth user_id; pure (safe doc)

pub record NewUser : Type 0 where
  pub email : Text
  pub first_name : Text
  pub last_name : Text
  pub company_id : Option ℕ
  pub job_title : Option Text
  pub phone : Option Text
  pub department_id : Option ℕ
  pub location_id : Option ℕ

-- `input.email.trim().toLowerCase()`
unfoldable pub normal_email : Text → Text
unfolding trim to_lower
normal_email email = to_lower (trim email)

abbrev pub created_user : AuthContext → NewUser → ℕ → User
created_user auth input new_id = record {
  id = new_id;
  account_type = AccountType.tenant;
  tenant_id = auth.tenant_id;
  company_id = get_or input.company_id auth.company_id;
  email = normal_email input.email;
  password_hash = none;
  first_name = trim input.first_name;
  last_name = trim input.last_name;
  job_title = trimmed input.job_title;
  phone = trimmed input.phone;
  totp_secret_enc = none;
  backup_codes_hash = [];
  is_active = true;
  force_password_reset = true;
  role_ids = [];
  department_id = input.department_id;
  location_id = input.location_id;
  access_token_hash = none;
  access_token_expires_at = none;
  access_token_issued_at = none;
}

abbrev pub is_blank : Text → Bool
is_blank t = text_eq t []

unfoldable pub create : AuthContext → NewUser → ℕ → Action Db SafeUser
create auth input new_id = do
  let user = created_user auth input new_id
  raise_if (not auth.cross_company && not (user.company_id == auth.company_id))
      (not_found "Company not in scope")
  exists ←
      gets
        (λ db. find_one (λ u. text_eq u.email user.email && u.tenant_id == auth.tenant_id) db.users)
  raise_if (given exists) (conflict "A user with this email already exists")
  raise_if (is_blank user.email || is_blank user.first_name || is_blank user.last_name)
      (failure "User validation failed")
  taken ← gets (λ db. find_one (λ u. text_eq u.email user.email) db.users)
  raise_if (given taken) (failure "E11000 duplicate key error on email")
  create_user user
  pure (safe user)

pub record UserPatch : Type 0 where
  pub first_name : Option Text
  pub last_name : Option Text
  pub email : Option Text
  pub job_title : Option Text
  pub phone : Option Text
  pub department_id : Option ℕ
  pub location_id : Option ℕ

abbrev map_text : (Text → Text) → Option Text → Option Text
map_text f none = none
map_text f (some t) = some (f t)

-- `{ $set: patch }`
abbrev pub patched : UserPatch → User → User
patched input u = record u {
  first_name = get_or (map_text trim input.first_name) u.first_name;
  last_name = get_or (map_text trim input.last_name) u.last_name;
  email = get_or (map_text normal_email input.email) u.email;
  job_title = or_else (trimmed input.job_title) u.job_title;
  phone = or_else (trimmed input.phone) u.phone;
  department_id = or_else input.department_id u.department_id;
  location_id = or_else input.location_id u.location_id;
}

-- The checks of a new email: another user of the tenant, then the index over all users.
unfoldable pub check_email : AuthContext → ℕ → User → Option Text → Action Db ⊤
check_email auth user_id current none = pure tt
check_email auth user_id current (some input) = do
  let email = normal_email input
  exists ← gets (λ db.
      find_one
        (λ u. u.tenant_id == auth.tenant_id && text_eq u.email email && not (u.id == user_id))
        db.users)
  raise_if (not (text_eq email current.email) && given exists)
      (conflict "A user with this email already exists")
  taken ← gets (λ db. find_one (λ u. text_eq u.email email && not (u.id == user_id)) db.users)
  raise_if (given taken) (failure "E11000 duplicate key error on email")

unfoldable pub update : AuthContext → ℕ → UserPatch → Action Db SafeUser
update auth user_id input = do
  current ← require_user auth user_id
  check_email auth user_id current input.email
  update_user (reachable auth user_id) (patched input)
  pure (safe (patched input current))

-- `[...new Set(roleIds)]`
unfoldable pub unique_ids : List ℕ → List ℕ → List ℕ
unique_ids seen [] = seen
unique_ids seen (i ∷ is) = unique_ids (if any (λ j. j == i) seen then seen else seen ++ i ∷ []) is

-- `{ companyId }` on a role, whose company may be absent.
abbrev company_matches : Option ℕ → Option ℕ → Bool
company_matches none c = true
company_matches (some k) c = is_id c k

abbrev pub role_passes : Scope → Role → Bool
role_passes s r = s.tenant_id == r.tenant_id && company_matches s.company_id r.company_id

abbrev pub outside_company : AuthContext → Role → Bool
outside_company auth r = elim r.company_id [ none ↦ false | some c ↦ not (c == auth.company_id) ]

unfoldable pub set_roles : AuthContext → ℕ → List ℕ → Action Db SafeUser
unfolding unique_ids
set_roles auth user_id role_ids = do
  let ids = unique_ids [] role_ids
  user ← require_user auth user_id
  roles ←
      gets (λ db. find_all (λ r. any (λ i. i == r.id) ids && role_passes (scope auth) r) db.roles)
  raise_if (not (length roles == length ids)) (not_found "One or more roles are outside your scope")
  raise_if (not auth.cross_company && any (outside_company auth) roles)
      (conflict "One or more roles are outside your company")
  update_user (reachable auth user_id) (λ u. record u { role_ids = ids })
  pure (safe (record user { role_ids = ids }))
