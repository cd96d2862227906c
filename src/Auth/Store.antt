-- ===== src/Auth/Store.antt =====
-- The tables that authentication reads and writes (prisma/schema.prisma), and the libraries that it
-- rests on, as parameters.
use asset_hub.Prelude.{ℕ, ⊤, Option, Bool, List, [], ◌∷◌, ◌++◌, String, ◌==◌, not, given}
use asset_hub.Prelude.Text.{Text, text_eq}
use asset_hub.Prelude.Collection.{update_one, find_one}
use asset_hub.Prelude.Action.{Action, modify, gets, raise_if, failure, ◌>>=◌, ◌>>◌}

pub record Account : Type 0 where
  pub id : ℕ
  pub tenant_id : ℕ
  pub company_id : ℕ
  pub email : Text
  pub password_hash : Option Text
  pub first_name : Text
  pub last_name : Text
  pub is_active : Bool
  pub external_scim_id : Option Text

pub record Session : Type 0 where
  pub id : ℕ
  pub user_id : ℕ
  pub refresh_token_hash : Text
  pub ip_address : Text
  pub user_agent : Text
  pub expires_at : ℕ
  pub revoked_at : Option ℕ
  pub revoked_reason : Option String

pub record LoginAttempt : Type 0 where
  pub user_id : ℕ
  pub success : Bool
  pub ip_address : Text
  pub user_agent : Text
  pub reason : Option String

-- A role of a user, with the keys of its permissions.
pub record UserRole : Type 0 where
  pub user_id : ℕ
  pub permission_keys : List String

pub record Company : Type 0 where
  pub id : ℕ
  pub tenant_id : ℕ

pub data Protocol : Type 0 where
  oidc saml : Protocol

pub record IdpConfig : Type 0 where
  pub id : ℕ
  pub company_id : ℕ
  pub is_enabled : Bool
  pub protocol : Protocol
  pub attribute_mapping : List (Text × Text)

-- An entry of the Redis cache, which is there until it expires.
pub record Entry : Type 0 where
  pub key : Text
  pub value : Text
  pub expires_at : ℕ

pub record Store : Type 0 where
  pub users : List Account
  pub user_roles : List UserRole
  pub sessions : List Session
  pub login_history : List LoginAttempt
  pub companies : List Company
  pub idp_configs : List IdpConfig
  pub cache : List Entry

-- The claims of an access token: `crossCompany` and `permissions` may be absent.
pub record Claims : Type 0 where
  pub sub : ℕ
  pub tenant_id : ℕ
  pub company_id : ℕ
  pub cross_company : Option Bool
  pub permissions : Option (List String)

-- argon2, SHA-256 and the JWT service.
pub record Crypto : Type 0 where
  pub verify_password : Text → Text → Bool
  pub hash_token : Text → Text
  pub sign : Claims → Text
  pub verify : Text → Option Claims

unfoldable pub create_attempt : LoginAttempt → Action Store ⊤
create_attempt a = modify λ s. record s { login_history = s.login_history ++ a ∷ [] }

-- `session.create`; the unique index on the hash refuses a second session with it.
unfoldable pub create_session : Session → Action Store ⊤
create_session e = do
  taken ← gets λ s. find_one (λ x. text_eq x.refresh_token_hash e.refresh_token_hash) s.sessions
  raise_if (given taken) (failure "Unique constraint failed on refreshTokenHash")
  modify λ s. record s { sessions = s.sessions ++ e ∷ [] }

-- `session.update({ where: { id } })`, which throws when there is no such session.
unfoldable pub update_session : ℕ → (Session → Session) → Action Store ⊤
update_session id f = do
  found ← gets λ s. find_one (λ x. x.id == id) s.sessions
  raise_if (not (given found)) (failure "Record to update not found")
  modify λ s. record s { sessions = update_one (λ x. x.id == id) f s.sessions }
