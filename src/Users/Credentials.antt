-- ===== src/Users/Credentials.antt =====
-- Activation, access links and sessions of users (users.service.ts). The random token of a link and
-- its SHA-256 hash come from outside. The login history is only read.
use asset_hub.Prelude.{
  ℕ, ⊤, ◌+◌, ◌*◌, Option, some, Bool, true, false, not, ◌&&◌, List, ◌==◌, given, map, String,
}
use asset_hub.Prelude.Text.{Text}
use asset_hub.Prelude.Collection.{find_one, find_all}
use asset_hub.Prelude.Action.{
  Action, pure, gets, or_raise, raise_if, not_found, conflict, ◌>>=◌, ◌>>◌,
}
use asset_hub.Models.{Db, User, Session}
use asset_hub.Database.{update_user, update_sessions, update_session}
use asset_hub.Access.Scope.{AuthContext}
use asset_hub.Users.Accounts.{SafeUser, safe, reachable, require_user}

abbrev pub revoked : ℕ → String → Session → Session
revoked now reason x = record x { revoked_at = some now; revoked_reason = some reason }

-- `{ userId, revokedAt: { $exists: false } }`
abbrev pub live_of : ℕ → Session → Bool
live_of user_id x = x.user_id == user_id && not (given x.revoked_at)

unfoldable pub revoke_all : Bool → ℕ → ℕ → Action Db ⊤
revoke_all true user_id now = pure tt
revoke_all false user_id now = update_sessions (live_of user_id) (revoked now "admin_deactivated")

unfoldable pub set_active : AuthContext → ℕ → Bool → ℕ → Action Db SafeUser
set_active auth user_id active now = do
  doc ← require_user auth user_id
  update_user (reachable auth user_id) (λ u. record u { is_active = active })
  revoke_all active doc.id now
  pure (safe (record doc { is_active = active }))

pub record AccessLink : Type 0 where
  pub user_id : ℕ
  pub email : Text
  pub expires_at : ℕ
  pub raw_token : Text

abbrev pub with_link : Text → ℕ → User → User
with_link hash now u = record u {
  access_token_hash = some hash;
  access_token_issued_at = some now;
  access_token_expires_at = some (now + 24 * 60 * 60 * 1000);
  force_password_reset = true;
}

unfoldable pub issue_access_link : (Text → Text) → AuthContext → ℕ → Text → ℕ → Action Db AccessLink
issue_access_link sha256 auth user_id raw_token now = do
  user ← require_user auth user_id
  update_user (λ u. u.id == user.id) (with_link (sha256 raw_token) now)
  pure (record {
    user_id = user.id;
    email = user.email;
    expires_at = now + 24 * 60 * 60 * 1000;
    raw_token = raw_token;
  })

-- A session without the hash of its token.
pub record SafeSession : Type 0 where
  pub id : ℕ
  pub user_id : ℕ
  pub expires_at : ℕ
  pub revoked_at : Option ℕ
  pub revoked_reason : Option String

abbrev safe_session : Session → SafeSession
safe_session x = record {
  id = x.id;
  user_id = x.user_id;
  expires_at = x.expires_at;
  revoked_at = x.revoked_at;
  revoked_reason = x.revoked_reason;
}

-- `sessions`, before the sort by time.
unfoldable pub sessions_of : AuthContext → ℕ → Action Db (List SafeSession)
sessions_of auth user_id = do
  user ← require_user auth user_id
  docs ← gets (λ db. find_all (λ x. x.user_id == user.id) db.sessions)
  pure (map safe_session docs)

unfoldable pub revoke_user_session : AuthContext → ℕ → ℕ → ℕ → ℕ → Action Db ℕ
revoke_user_session auth user_id session_id actor_user_id now = do
  user ← require_user auth user_id
  mine ← gets (λ db. find_one (λ x. x.id == session_id) db.sessions)
  raise_if (user.id == actor_user_id && given mine)
      (conflict "Your current session cannot be revoked from this screen")
  session ←
      or_raise (← gets (λ db. find_one (λ x. x.id == session_id && live_of user.id x) db.sessions))
        (not_found "Active session not found")
  update_session (λ x. x.id == session_id && live_of user.id x) (revoked now "admin_revoked")
  pure session.id
