-- ===== src/Auth/Login.antt =====
-- Login, refresh and logout (apps/api/src/modules/auth/auth.service.ts).
use asset_hub.Prelude.{
  ℕ, ⊤, Option, none, some, Bool, true, false, not, ◌||◌, String, ltb, given, if◌then◌else◌,
}
use asset_hub.Prelude.Text.{Text, text_eq}
use asset_hub.Prelude.Collection.{find_one}
use asset_hub.Prelude.Action.{
  Action, Error, pure, gets, raise, raise_if, or_raise, unauthorized, ◌>>=◌, ◌>>◌,
}
use asset_hub.Auth.Store.{Account, Session, Store, Crypto, create_attempt}
use asset_hub.Auth.Sessions.{
  Tokens, Client, Fresh, issue_session, revoke_session, find_by_refresh_token,
}

-- `recordLoginAttempt`: an attempt with an unknown email is not recorded.
unfoldable pub record_login_attempt : Option ℕ → Bool → Client → Option String → Action Store ⊤
record_login_attempt none success client reason = pure tt
record_login_attempt (some user_id) success client reason = create_attempt (record {
  user_id = user_id;
  success = success;
  ip_address = client.ip;
  user_agent = client.user_agent;
  reason = reason;
})

-- `session.revokedAt || session.expiresAt < new Date()`
abbrev pub is_dead : ℕ → Session → Bool
is_dead now x = given x.revoked_at || ltb x.expires_at now

module _ (crypto : Crypto) where
  -- `user.passwordHash && argon2.verify(…)`
  abbrev pub password_ok : Option Text → Text → Bool
  password_ok none password = false
  password_ok (some hash) password = crypto.verify_password hash password

  -- A refused login: the attempt is recorded, then the exception is thrown.
  unfoldable pub refuse : Option ℕ → String → Error → Client → Action Store Tokens
  refuse user_id reason e client = do
    record_login_attempt user_id false client (some reason)
    raise e

  unfoldable pub accept : Account → Client → Fresh → Action Store Tokens
  accept user client fresh = do
    record_login_attempt (some user.id) true client none
    issue_session crypto user.id client fresh

  -- The part of `login` after the user was looked up.
  unfoldable pub login_user : Option Account → Text → Client → Fresh → Action Store Tokens
  login_user none password client fresh =
      refuse none "invalid_credentials" (unauthorized "Invalid email or password") client
  login_user (some user) password client fresh =
      let wrong =
        refuse (some user.id) "invalid_credentials" (unauthorized "Invalid email or password")
          client in
      let inactive =
        refuse (some user.id) "account_inactive" (unauthorized "Account is inactive") client in
      if not (password_ok user.password_hash password)
      then wrong
      else if not user.is_active
      then inactive
      else accept user client fresh

  unfoldable pub login : Text → Text → Client → Fresh → Action Store Tokens
  login email password client fresh = do
    user ← gets λ s. find_one (λ u. text_eq u.email email) s.users
    login_user user password client fresh

  unfoldable pub refresh : Text → Client → Fresh → Action Store Tokens
  refresh raw client fresh = do
    session ←
        or_raise (← gets (find_by_refresh_token crypto raw)) (unauthorized "Invalid refresh token")
    raise_if (is_dead fresh.now session) (unauthorized "Invalid refresh token")
    revoke_session crypto session.id "rotated" fresh.now
    issue_session crypto session.user_id client fresh

  unfoldable pub logout : ℕ → ℕ → Action Store ⊤
  logout session_id now = revoke_session crypto session_id "user_logout" now
