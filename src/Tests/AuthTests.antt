-- ===== src/Tests/AuthTests.antt =====
-- Runs of authentication and single sign-on (apps/api/src/modules/auth, apps/api/src/modules/identity).
use asset_hub.Prelude.{ℕ, ◌≡◌, ◌↔◌, refl, none, some, true, [], ◌∷◌, ◌++◌, arith, ◌==◌}
use asset_hub.Prelude.Text.{Text, text_eq, codes}
use asset_hub.Prelude.Collection.{find_one}
use asset_hub.Prelude.Action.{ok, err, unauthorized, failure, ◌>>=◌}
use asset_hub.Access.Guards.{tenant_context_guard, rbac_guard, bearer}
use asset_hub.Auth.Store.{
  Account, Session, Store, Claims, Crypto, create_session, create_attempt, update_session,
}
use asset_hub.Auth.Sessions.{
  Client, Fresh, issue_session, revoke_session, find_by_refresh_token, resolve_permissions,
  claims_of, add_keys, collect_keys,
}
use asset_hub.Auth.Login.{
  login, login_user, accept, refuse, record_login_attempt, password_ok, refresh,
}
use asset_hub.Auth.Rotation.{refresh_single_use}
use asset_hub.Auth.Outcomes.{attempt, login_success, login_failure}
use asset_hub.Auth.Grants.{issue_session_grants, context, has_permission}
use asset_hub.Identity.Cache.{store_value, set_once, take_value, forget_taken, redis_set, redis_del}
use asset_hub.Identity.Providers.{
  IdpLibraries, Profile, apply_attribute_mapping, apply_mapping, remember_state, oidc_callback,
  saml_callback,
}
use asset_hub.Identity.Replay.{saml_replay_refused, oidc_replay_refused}

abbrev ann : Account
ann = record {
  id = 7;
  tenant_id = 1;
  company_id = 10;
  email = codes "ann";
  password_hash = some (codes "pw");
  first_name = codes "Ann";
  last_name = codes "Lee";
  is_active = true;
  external_scim_id = none;
}

abbrev claims : Claims
claims = record {
  sub = 7;
  tenant_id = 1;
  company_id = 10;
  cross_company = none;
  permissions = some ("assets:read" ∷ []);
}

-- Libraries that can stand for the real ones: a hash that is the text itself, and one known token.
abbrev crypto : Crypto
crypto = record {
  verify_password = text_eq;
  hash_token = λ t. t;
  sign = λ c. codes "jwt";
  verify = λ t. some claims;
}

abbrev client : Client
client = record { ip = []; user_agent = [] }

abbrev fresh : ℕ → Text → Fresh
fresh id raw = record { raw_token = raw; session_id = id; now = 1000 }

abbrev old_session : Session
old_session = record {
  id = 1;
  user_id = 7;
  refresh_token_hash = codes "r1";
  ip_address = [];
  user_agent = [];
  expires_at = 9000;
  revoked_at = none;
  revoked_reason = none;
}

abbrev store : Store
store = record {
  users = ann ∷ [];
  user_roles = record { user_id = 7; permission_keys = "assets:read" ∷ [] } ∷ [];
  sessions = old_session ∷ [];
  login_history = [];
  companies = [];
  idp_configs = [];
  cache = [];
}

refresh_single_use_example :
    let s' = (refresh crypto (codes "r1") client (fresh 2 (codes "r2")) store).1 in
    refresh crypto (codes "r1") client (fresh 3 (codes "r3")) s'
    ≡ (err (unauthorized "Invalid refresh token"), s')
unfolding refresh revoke_session update_session issue_session create_session ◌>>=◌
refresh_single_use_example =
    refresh_single_use crypto (codes "r1") client client (fresh 2 (codes "r2"))
      (fresh 3 (codes "r3")) store _ _ (tt, tt) refl

login_success_example :
    let s' = (login crypto (codes "ann") (codes "pw") client (fresh 2 (codes "r2")) store).1 in
    (user : Account) × (find_one (λ u. text_eq u.email (codes "ann")) store.users ≡ some user)
    × (password_ok crypto user.password_hash (codes "pw") ≡ true)
    × (user.is_active ≡ true)
    × (s'.login_history ≡ store.login_history ++ attempt user true client none ∷ [])
    × ((x : Session) × (s'.sessions ≡ store.sessions ++ x ∷ [])
        × (x.user_id ≡ user.id)
        × (x.revoked_at ≡ none)
        × (find_by_refresh_token crypto (codes "r2") s' ≡ some x))
unfolding login login_user accept refuse record_login_attempt create_attempt issue_session
    create_session ◌>>=◌
login_success_example =
    login_success crypto (codes "ann") (codes "pw") client (fresh 2 (codes "r2")) store _ _ refl

login_failure_example :
    (login crypto (codes "bob") (codes "pw") client (fresh 2 (codes "r2")) store).1.sessions
    ≡ store.sessions
unfolding login login_user accept refuse record_login_attempt create_attempt issue_session
    create_session ◌>>=◌
login_failure_example =
    login_failure crypto (codes "bob") (codes "pw") client (fresh 2 (codes "r2")) store
      (unauthorized "Invalid email or password") refl

known :
    (user : Account)
    → find_one (λ u. u.id == 7) store.users ≡ some user
    → crypto.verify (crypto.sign (claims_of user (resolve_permissions user.id store)))
      ≡ some (claims_of user (resolve_permissions 7 store))
unfolding resolve_permissions collect_keys add_keys
known user h = let same : ann ≡ user = ground arith in rw (← same) refl

issue_session_grants_example :
    (user : Account) × (find_one (λ u. u.id == 7) store.users ≡ some user)
    × (tenant_context_guard crypto (some (bearer ++ codes "jwt")) ≡ ok (context crypto user store))
    × ((rbac_guard (some "assets:write") (some (context crypto user store)) ≡ ok true)
        ↔ (has_permission "assets:write" user.id store ≡ true))
unfolding issue_session create_session ◌>>=◌
issue_session_grants_example =
    issue_session_grants crypto 7 client (fresh 2 (codes "r2")) store _ _ "assets:write" known refl

abbrev profile : Profile
profile = record {
  name_id = codes "ann";
  in_response_to = some (codes "q1");
  session_index = none;
  attributes = [];
}

abbrev libraries : IdpLibraries
libraries = record {
  exchange =
      λ auth_code secrets. some (record { sub = codes "x1"; email = codes "ann"; attributes = [] });
  validate_response = λ response. some profile;
  decimal = λ n. n ∷ [];
}

saml_replay_refused_example :
    let s' = (saml_callback libraries 10 [] (codes "doc") 1000 store).1 in
    saml_callback libraries 10 [] (codes "doc") 2000 s'
    ≡ (err (failure "SAML assertion replay detected — rejected"), s')
unfolding saml_callback set_once redis_set ◌>>=◌ apply_attribute_mapping apply_mapping
saml_replay_refused_example =
    saml_replay_refused libraries 10 [] [] (codes "doc") (codes "doc") profile profile 1000 2000
      store _ _ refl refl refl (omega arith) refl

-- The store after an authorization with the state "st".
abbrev waiting : Store
unfolding remember_state store_value redis_set ◌>>=◌
waiting = (remember_state libraries 10 (codes "st") (codes "nonce") 500 store).1

oidc_replay_refused_example :
    let s' = (oidc_callback libraries 10 [] (codes "c1") (codes "st") 1000 waiting).1 in
    oidc_callback libraries 10 [] (codes "c2") (codes "st") 2000 s'
    ≡ (err (failure "Invalid or expired OIDC state — possible CSRF or replay attempt"), s')
unfolding waiting oidc_callback take_value forget_taken redis_del remember_state store_value
    redis_set ◌>>=◌ apply_attribute_mapping apply_mapping
oidc_replay_refused_example =
    oidc_replay_refused libraries 10 [] [] (codes "c1") (codes "c2") (codes "st") 1000 2000 waiting
      _ _ refl
