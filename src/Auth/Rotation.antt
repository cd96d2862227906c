-- ===== src/Auth/Rotation.antt =====
-- Refresh tokens are single-use (apps/api/src/modules/auth/auth.service.ts, `refresh`).
use asset_hub.Prelude.{
  ◌≡◌, none, some, Bool, true, false, [], ◌∷◌, ◌++◌, ◌==◌, ◌+◌, arith, Option-cases, inl, inr,
}
use asset_hub.Prelude.Text.{Text, text_eq}
use asset_hub.Prelude.Collection.{
  Distinct, find_one, update_one, find_one-update_one, find_one-append, find_one_sound,
}
use asset_hub.Prelude.Action.{ok, err, unauthorized, ◌>>=◌}
use asset_hub.Auth.Store.{Session, Store, Crypto, create_session, update_session}
use asset_hub.Auth.Sessions.{
  refresh_token_ttl_ms, Tokens, Client, Fresh, issue_session, revoke_session, find_by_refresh_token,
}
use asset_hub.Auth.Login.{refresh, is_dead}

-- The change that a rotation makes to the session.
abbrev revoked : Fresh → Session → Session
revoked fresh x = record x { revoked_at = some fresh.now; revoked_reason = some "rotated" }

module _ (crypto : Crypto) where
  abbrev has_hash : Text → Session → Bool
  has_hash raw x = text_eq x.refresh_token_hash (crypto.hash_token raw)

  -- What a refresh that returned has done to the sessions.
  refresh-sessions :
      (raw : Text) (client : Client) (fresh : Fresh) (s s' : Store) (t : Tokens)
      → refresh crypto raw client fresh s ≡ (ok t, s')
      → (x : Session) × (new : Session) × (find_by_refresh_token crypto raw s ≡ some x)
        × (is_dead fresh.now x ≡ false)
        × (s'.sessions ≡ update_one (λ y. y.id == x.id) (revoked fresh) s.sessions ++ new ∷ [])
  unfolding refresh revoke_session update_session issue_session create_session ◌>>=◌
  refresh-sessions raw client fresh s s' t h =
      elim (Option-cases (find_by_refresh_token crypto raw s)) [
        | inl e ↦ absurd (ground arith)
        | inr (x, e) ↦ elim (Option-cases (find_one (λ u. u.id == x.user_id) s.users)) [
          | inl e' ↦ absurd (ground arith)
          | inr (user, e') ↦ (
            x,
            record {
              id = fresh.session_id;
              user_id = user.id;
              refresh_token_hash = crypto.hash_token fresh.raw_token;
              ip_address = client.ip;
              user_agent = client.user_agent;
              expires_at = fresh.now + refresh_token_ttl_ms;
              revoked_at = none;
              revoked_reason = none;
            },
            ground arith,
            ground arith,
            ground arith,
          )
        ]
      ]

  -- A refresh that returns revokes the session whose token was presented: in the state that it leaves,
  -- that token is refused at any time and for any client, and nothing changes. Session ids are
  -- distinct, as the primary key has them.
  pub refresh_single_use :
      (raw : Text) (client client' : Client) (fresh fresh' : Fresh) (s s' : Store) (t : Tokens)
      → Distinct (λ x. x.id) s.sessions
      → refresh crypto raw client fresh s ≡ (ok t, s')
      → refresh crypto raw client' fresh' s' ≡ (err (unauthorized "Invalid refresh token"), s')
  unfolding refresh ◌>>=◌
  refresh_single_use raw client client' fresh fresh' s s' t d h =
      let (x, new, found, alive, e) = refresh-sessions raw client fresh s s' t h in
      let hash : has_hash raw (revoked fresh x) ≡ true =
        find_one_sound (has_hash raw) s.sessions x found in
      let later : find_one (has_hash raw) s'.sessions ≡ some (revoked fresh x) = rw e (
        find_one-append (has_hash raw) _ (new ∷ []) _ (
          find_one-update_one (has_hash raw) (λ y. y.id) (revoked fresh) s.sessions x d hash
            found)) in
      ground arith
