-- ===== src/Auth/Outcomes.antt =====
-- What a login does on every branch (apps/api/src/modules/auth/auth.service.ts, `login`).
use asset_hub.Prelude.{
  ◌≡◌, refl, Option, none, some, Bool, true, [], ◌∷◌, ◌++◌, ◌==◌, ◌+◌, arith, Option-cases, inl,
  inr, String,
}
use asset_hub.Prelude.Text.{Text, text_eq, text_eq_iff}
use asset_hub.Prelude.Collection.{find_one, find_one_sound, find_one-append_none}
use asset_hub.Prelude.Action.{Error, ok, err, ◌>>=◌}
use asset_hub.Auth.Store.{
  Account, Session, LoginAttempt, Store, Crypto, create_session, create_attempt,
}
use asset_hub.Auth.Sessions.{
  refresh_token_ttl_ms, Tokens, Client, Fresh, issue_session, find_by_refresh_token,
}
use asset_hub.Auth.Login.{login, login_user, accept, refuse, record_login_attempt, password_ok}

abbrev pub attempt : Account → Bool → Client → Option String → LoginAttempt
attempt user success client reason = record {
  user_id = user.id;
  success = success;
  ip_address = client.ip;
  user_agent = client.user_agent;
  reason = reason;
}

abbrev new_session : Crypto → Account → Client → Fresh → Session
new_session crypto user client fresh = record {
  id = fresh.session_id;
  user_id = user.id;
  refresh_token_hash = crypto.hash_token fresh.raw_token;
  ip_address = client.ip;
  user_agent = client.user_agent;
  expires_at = fresh.now + refresh_token_ttl_ms;
  revoked_at = none;
  revoked_reason = none;
}

module _ (crypto : Crypto) (email password : Text) (client : Client) (fresh : Fresh)
    (s : Store) where
  -- A login that returns had a user with the email, the right password and an active account; it adds
  -- one successful attempt to the history and one session, which the refresh token finds.
  pub login_success :
      (s' : Store) (t : Tokens)
      → login crypto email password client fresh s ≡ (ok t, s')
      → (user : Account) × (find_one (λ u. text_eq u.email email) s.users ≡ some user)
        × (password_ok crypto user.password_hash password ≡ true)
        × (user.is_active ≡ true)
        × (s'.login_history ≡ s.login_history ++ attempt user true client none ∷ [])
        × ((x : Session) × (s'.sessions ≡ s.sessions ++ x ∷ [])
            × (x.user_id ≡ user.id)
            × (x.revoked_at ≡ none)
            × (find_by_refresh_token crypto t.refresh_token s' ≡ some x))
  unfolding login login_user accept refuse record_login_attempt create_attempt issue_session
      create_session ◌>>=◌
  login_success s' t h = elim (Option-cases (find_one (λ u. text_eq u.email email) s.users)) [
    | inl e ↦ absurd (ground arith)
    | inr (user, e) ↦ elim (Option-cases (find_one (λ u. u.id == user.id) s.users)) [
      | inl e' ↦ absurd (ground arith)
      | inr (owner, e') ↦
          let same : owner.id ≡ user.id =
            ground (arith, find_one_sound (λ u. u.id == user.id) s.users owner e') in
          let x = new_session crypto user client fresh in
          let raw : t.refresh_token ≡ fresh.raw_token = ground arith in
          let free : find_by_refresh_token crypto fresh.raw_token s ≡ none = ground arith in
          let added : s'.sessions ≡ s.sessions ++ x ∷ [] = ground arith in
          (
            user,
            e,
            ground arith,
            ground arith,
            ground arith,
            (
              x,
              added,
              refl,
              refl,
              rw (raw, added)
                  (ground (
                    arith,
                    find_one-append_none
                        (λ y. text_eq y.refresh_token_hash (crypto.hash_token fresh.raw_token))
                        s.sessions (x ∷ []) free,
                    text_eq_iff (crypto.hash_token fresh.raw_token)
                        (crypto.hash_token fresh.raw_token),
                  )),
            ),
          )
    ]
  ]

  -- A login that throws creates no session, whatever the reason.
  pub login_failure :
      (e : Error)
      → (login crypto email password client fresh s).0 ≡ err e
      → (login crypto email password client fresh s).1.sessions ≡ s.sessions
  unfolding login login_user accept refuse record_login_attempt create_attempt issue_session
      create_session ◌>>=◌
  login_failure e h = ground arith
