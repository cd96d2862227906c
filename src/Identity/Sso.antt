-- ===== src/Identity/Sso.antt =====
-- The login that an external identity ends in (apps/api/src/modules/identity/identity.service.ts).
use asset_hub.Prelude.{ℕ, not, ◌&&◌, List, ◌==◌}
use asset_hub.Prelude.Text.{Text}
use asset_hub.Prelude.Collection.{find_one}
use asset_hub.Prelude.Action.{
  Action, gets, raise_if, or_raise, failure, not_found, unauthorized, ◌>>=◌, ◌>>◌,
}
use asset_hub.Auth.Store.{Store, IdpConfig, Protocol, oidc, saml, Crypto}
use asset_hub.Auth.Sessions.{Tokens, Client, Fresh, issue_session}
use asset_hub.Auth.Provisioning.{NormalizedIdentity, upsert_from_identity}
use asset_hub.Identity.Providers.{IdpLibraries, oidc_callback, saml_callback}

-- The parameters of a callback: `code` and `state`, or `SAMLResponse`.
pub record Params : Type 0 where
  pub auth_code : Text
  pub state : Text
  pub saml_response : Text

module _ (crypto : Crypto) (libraries : IdpLibraries) where
  -- `buildProvider`, up to the choice of the protocol.
  unfoldable pub find_config : ℕ → ℕ → Action Store IdpConfig
  find_config company_id idp_config_id = do
    or_raise
        (← gets λ s.
          find_one (λ c. c.id == idp_config_id && c.company_id == company_id && c.is_enabled)
            s.idp_configs)
        (not_found "Identity provider not configured or disabled")

  unfoldable pub provider_callback :
      Protocol → ℕ → List (Text × Text) → Params → ℕ → Action Store NormalizedIdentity
  provider_callback oidc company_id mapping params now =
      oidc_callback libraries company_id mapping params.auth_code params.state now
  provider_callback saml company_id mapping params now =
      saml_callback libraries company_id mapping params.saml_response now

  unfoldable pub handle_callback : ℕ → ℕ → Params → Client → Fresh → ℕ → Action Store Tokens
  handle_callback company_id idp_config_id params client fresh new_user_id = do
    config ← find_config company_id idp_config_id
    identity ←
        provider_callback config.protocol company_id config.attribute_mapping params fresh.now
    company ←
        or_raise (← gets λ s. find_one (λ c. c.id == company_id) s.companies)
          (failure "No Company found")
    user ← upsert_from_identity company_id company.tenant_id identity new_user_id
    raise_if (not user.is_active) (unauthorized "Account is inactive")
    issue_session crypto user.id client fresh
