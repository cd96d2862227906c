-- ===== src/Auth/Sessions.antt =====
-- Sessions (apps/api/src/modules/auth/session.service.ts): the one place where an access token and
-- a refresh token are made.
use asset_hub.Prelude.{
  ℕ, ⊤, ◌+◌, ◌*◌, Option, none, some, List, [], ◌∷◌, ◌++◌, String, ◌==◌, if◌then◌else◌, any,
}
use asset_hub.Prelude.Text.{Text, text_eq}
use asset_hub.Prelude.Collection.{find_one, find_all}
use asset_hub.Prelude.Action.{Action, pure, gets, or_raise, failure, ◌>>=◌, ◌>>◌}
use text.Mathlib.Text.{◌==◌ as str_eq}
use asset_hub.Auth.Store.{
  Account, Session, UserRole, Store, Claims, Crypto, create_session, update_session,
}

-- 30 days in milliseconds.
abbrev pub refresh_token_ttl_ms : ℕ
refresh_token_ttl_ms = 30 * 24 * 60 * 60 * 1000

-- The `Set` of `resolvePermissions`, in insertion order.
abbrev pub add_key : List String → String → List String
add_key keys k = if any (str_eq k) keys then keys else keys ++ k ∷ []

unfoldable pub add_keys : List String → List String → List String
add_keys keys [] = keys
add_keys keys (k ∷ ks) = add_keys (add_key keys k) ks

unfoldable pub collect_keys : List String → List UserRole → List String
unfolding add_keys
collect_keys keys [] = keys
collect_keys keys (r ∷ rs) = collect_keys (add_keys keys r.permission_keys) rs

unfoldable pub resolve_permissions : ℕ → Store → List String
unfolding collect_keys
resolve_permissions user_id s = collect_keys [] (find_all (λ r. r.user_id == user_id) s.user_roles)

pub record Tokens : Type 0 where
  pub access_token : Text
  pub refresh_token : Text

-- Who calls: `ip` and `userAgent`.
pub record Client : Type 0 where
  pub ip : Text
  pub user_agent : Text

-- What a new session takes from outside: random bytes, the id of the row and the time.
pub record Fresh : Type 0 where
  pub raw_token : Text
  pub session_id : ℕ
  pub now : ℕ

abbrev pub claims_of : Account → List String → Claims
claims_of user permissions = record {
  sub = user.id;
  tenant_id = user.tenant_id;
  company_id = user.company_id;
  cross_company = none;
  permissions = some permissions;
}

module _ (crypto : Crypto) where
  unfoldable pub issue_session : ℕ → Client → Fresh → Action Store Tokens
  issue_session user_id client fresh = do
    user ← or_raise (← gets λ s. find_one (λ u. u.id == user_id) s.users) (failure "No User found")
    permissions ← gets (resolve_permissions user_id)
    create_session (record {
      id = fresh.session_id;
      user_id = user.id;
      refresh_token_hash = crypto.hash_token fresh.raw_token;
      ip_address = client.ip;
      user_agent = client.user_agent;
      expires_at = fresh.now + refresh_token_ttl_ms;
      revoked_at = none;
      revoked_reason = none;
    })
    pure (record {
      access_token = crypto.sign (claims_of user permissions);
      refresh_token = fresh.raw_token;
    })

  unfoldable pub revoke_session : ℕ → String → ℕ → Action Store ⊤
  revoke_session session_id reason now =
      update_session session_id
        λ x. record x { revoked_at = some now; revoked_reason = some reason }

  abbrev pub find_by_refresh_token : Text → Store → Option Session
  find_by_refresh_token raw s =
      find_one (λ x. text_eq x.refresh_token_hash (crypto.hash_token raw)) s.sessions
