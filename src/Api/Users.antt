-- ===== src/Api/Users.antt =====
-- The routes of users (users.controller.ts). `@IsEmail` is a parameter; the time, the random token and the id of a
-- new user come with the request.
use asset_hub.Prelude.{ℕ, ⊤, Option, none, some, Bool, true, false, not, ◌||◌, List, String}
use asset_hub.Prelude.Text.{Text}
use asset_hub.Prelude.Action.{Action, gets}
use asset_hub.Access.Scope.{AuthContext}
use asset_hub.Users.Accounts.{
  NewUser, UserPatch, list_users, get_user, create, update, set_roles, require_user,
}
use asset_hub.Users.Credentials.{sessions_of, issue_access_link, set_active, revoke_user_session}
use asset_hub.Api.World.{World, on_db, too_short, validated}

pub data UserRoute : Type 0 where
  list_all : UserRoute
  get_one sessions login_history : ℕ → UserRoute
  create_one : NewUser → ℕ → UserRoute
  update_one : ℕ → UserPatch → UserRoute
  put_roles : ℕ → List ℕ → UserRoute
  access_link : ℕ → Text → UserRoute
  activate deactivate : ℕ → UserRoute
  revoke_session : ℕ → ℕ → UserRoute

unfoldable pub user_permission : UserRoute → String
user_permission list_all = "user:read"
user_permission (get_one id) = "user:read"
user_permission (sessions id) = "user:read"
user_permission (login_history id) = "audit:read"
user_permission (create_one dto id) = "user:write"
user_permission (update_one id dto) = "user:write"
user_permission (put_roles id roles) = "role:write"
user_permission (access_link id token) = "user:write"
user_permission (activate id) = "user:write"
user_permission (deactivate id) = "user:write"
user_permission (revoke_session id session) = "user:write"

module _ (is_email : Text → Bool) (sha256 : Text → Text) where
  abbrev bad_email : Option Text → Bool
  bad_email none = false
  bad_email (some t) = not (is_email t)

  abbrev bad_name : Option Text → Bool
  bad_name none = false
  bad_name (some t) = too_short 1 t

  -- The login history is only read, and not part of the state.
  unfoldable pub user_handler : UserRoute → ℕ → AuthContext → Action World ⊤
  user_handler list_all now auth = on_db (gets (list_users auth))
  user_handler (get_one id) now auth = on_db (get_user auth id)
  user_handler (sessions id) now auth = on_db (sessions_of auth id)
  user_handler (login_history id) now auth = on_db (require_user auth id)
  user_handler (create_one dto new_id) now auth =
      validated
        (not (is_email dto.email) || too_short 1 dto.first_name || too_short 1 dto.last_name)
        (on_db (create auth dto new_id))
  user_handler (update_one id dto) now auth =
      validated (bad_email dto.email || bad_name dto.first_name || bad_name dto.last_name)
        (on_db (update auth id dto))
  user_handler (put_roles id roles) now auth = on_db (set_roles auth id roles)
  user_handler (access_link id token) now auth = on_db (issue_access_link sha256 auth id token now)
  user_handler (activate id) now auth = on_db (set_active auth id true now)
  user_handler (deactivate id) now auth = on_db (set_active auth id false now)
  user_handler (revoke_session id session) now auth =
      on_db (revoke_user_session auth id session auth.user_id now)
