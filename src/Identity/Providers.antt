-- ===== src/Identity/Providers.antt =====
-- The OIDC and SAML providers (apps/api/src/modules/identity/providers). What openid-client and
-- node-saml check is a parameter: the claims or the profile that they accept, if they accept.
use asset_hub.Prelude.{
  ℕ, ⊤, Option, none, some, not, List, [], ◌∷◌, ◌++◌, get_or, or_else, if◌then◌else◌,
}
use asset_hub.Prelude.Text.{Text, text_eq, codes}
use asset_hub.Prelude.Action.{Action, pure, raise_if, or_raise, failure, ◌>>=◌, ◌>>◌}
use asset_hub.Auth.Store.{Store}
use asset_hub.Auth.Provisioning.{NormalizedIdentity}
use asset_hub.Identity.Cache.{store_value, take_value, set_once}

-- Attributes as the provider sends them, by name; an absent or null one is not there.
abbrev pub Attributes : Type 0
Attributes = List (Text × Text)

abbrev pub lookup : Text → Attributes → Option Text
lookup k [] = none
lookup k ((j, v) ∷ m) = if text_eq j k then some v else lookup k m

-- `result[field] = v`: the last write to a field counts.
abbrev pub put : Text → Text → Attributes → Attributes
put k v [] = (k, v) ∷ []
put k v ((j, w) ∷ m) = if text_eq j k then (k, v) ∷ m else (j, w) ∷ put k v m

-- The loop of `applyAttributeMapping` over `[providerAttr, internalField]`.
abbrev pub put_if : Text → Option Text → Attributes → Attributes
put_if field none result = result
put_if field (some v) result = put field v result

unfoldable pub apply_mapping : List (Text × Text) → Attributes → Attributes → Attributes
apply_mapping [] claims result = result
apply_mapping ((attr, field) ∷ rest) claims result =
    apply_mapping rest claims (put_if field (lookup attr claims) result)

unfoldable pub apply_attribute_mapping : List (Text × Text) → Attributes → Attributes
unfolding apply_mapping
apply_attribute_mapping mapping claims = apply_mapping mapping claims []

-- What an accepted ID token says.
pub record IdToken : Type 0 where
  pub sub : Text
  pub email : Text
  pub attributes : Attributes

-- What an accepted SAML response says; `inResponseTo` and `sessionIndex` may be absent.
pub record Profile : Type 0 where
  pub name_id : Text
  pub in_response_to : Option Text
  pub session_index : Option Text
  pub attributes : Attributes

-- The libraries: an ID token for a code, with the expected nonce and the PKCE verifier, both read
-- from the cached value; and the profile of a SAML response. `decimal` is `String(companyId)`.
pub record IdpLibraries : Type 0 where
  pub exchange : Text → Text → Option IdToken
  pub validate_response : Text → Option Profile
  pub decimal : ℕ → Text

-- `profile.inResponseTo ?? profile.sessionIndex ?? profile.nameID`
abbrev pub assertion_id : Profile → Text
assertion_id p = get_or (or_else p.in_response_to p.session_index) p.name_id

module _ (libraries : IdpLibraries) where
  -- `oidc:${companyId}:${state}`
  abbrev pub state_key : ℕ → Text → Text
  state_key company_id state =
      codes "oidc:" ++ (libraries.decimal company_id ++ (codes ":" ++ state))

  -- The part of `getAuthorizationUrl` that stores the nonce and the verifier under the state.
  unfoldable pub remember_state : ℕ → Text → Text → ℕ → Action Store ⊤
  remember_state company_id state secrets now =
      store_value (state_key company_id state) secrets 600 now

  -- `OidcProvider.handleCallback`
  unfoldable pub oidc_callback :
      ℕ → List (Text × Text) → Text → Text → ℕ → Action Store NormalizedIdentity
  oidc_callback company_id mapping auth_code state now = do
    cached ← take_value (state_key company_id state) now
    secrets ←
        or_raise cached (failure "Invalid or expired OIDC state — possible CSRF or replay attempt")
    token ← or_raise (libraries.exchange auth_code secrets) (failure "OIDC callback refused")
    let mapped = apply_attribute_mapping mapping token.attributes
    pure (record {
      external_id = token.sub;
      email = get_or (lookup (codes "email") mapped) token.email;
      first_name = lookup (codes "firstName") mapped;
      last_name = lookup (codes "lastName") mapped;
    })

  -- `saml-assertion:${companyId}:${assertionId}`
  abbrev pub assertion_key : ℕ → Text → Text
  assertion_key company_id a =
      codes "saml-assertion:" ++ (libraries.decimal company_id ++ (codes ":" ++ a))

  -- `SamlProvider.handleCallback`
  unfoldable pub saml_callback : ℕ → List (Text × Text) → Text → ℕ → Action Store NormalizedIdentity
  saml_callback company_id mapping response now = do
    profile ←
        or_raise (libraries.validate_response response)
          (failure "SAML response produced no profile — rejected")
    first_use ← set_once (assertion_key company_id (assertion_id profile)) 300 now
    raise_if (not first_use) (failure "SAML assertion replay detected — rejected")
    let mapped = apply_attribute_mapping mapping profile.attributes
    pure (record {
      external_id = profile.name_id;
      email = get_or (lookup (codes "email") mapped) profile.name_id;
      first_name = lookup (codes "firstName") mapped;
      last_name = lookup (codes "lastName") mapped;
    })

-- `SamlProvider.validate` on the two settings that it looks at.
unfoldable pub saml_validate : Text → Text → List Text
saml_validate cert entry_point =
    (if text_eq cert [] then codes "IdP signing certificate is required" ∷ [] else [])
    ++ (if text_eq entry_point [] then codes "entryPoint (IdP SSO URL) is required" ∷ [] else [])
