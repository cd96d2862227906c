-- ===== src/Auth/Provisioning.antt =====
-- Users from external identities (apps/api/src/modules/auth/provisioning.service.ts).
use asset_hub.Prelude.{
  ℕ, ⊤, Option, none, some, Bool, true, false, not, ◌&&◌, [], ◌∷◌, ◌++◌, ◌==◌, given, get_or,
}
use asset_hub.Prelude.Text.{Text, text_eq}
use asset_hub.Prelude.Collection.{find_one, update_one}
use asset_hub.Prelude.Action.{Action, pure, gets, modify, raise_if, failure, ◌>>=◌, ◌>>◌}
use asset_hub.Auth.Store.{Account, Store}

-- identity-provider.interface.ts, `NormalizedIdentity`
pub record NormalizedIdentity : Type 0 where
  pub external_id : Text
  pub email : Text
  pub first_name : Option Text
  pub last_name : Option Text

abbrev pub has_external : Text → Option Text → Bool
has_external e none = false
has_external e (some x) = text_eq x e

-- The unique index on the email, for a row other than `id`.
unfoldable pub require_free_email : ℕ → Text → Action Store ⊤
require_free_email id email = do
  taken ← gets λ s. find_one (λ u. text_eq u.email email && not (u.id == id)) s.users
  raise_if (given taken) (failure "Unique constraint failed on email")

-- The unique index on the company and the external id, for a row other than `id`.
unfoldable pub require_free_external : ℕ → ℕ → Text → Action Store ⊤
require_free_external id company_id external_id = do
  taken ← gets λ s.
      find_one
        (λ u.
          u.company_id == company_id
          && has_external external_id u.external_scim_id
          && not (u.id == id))
        s.users
  raise_if (given taken) (failure "Unique constraint failed on companyId and externalScimId")

unfoldable pub update_user : ℕ → (Account → Account) → Action Store ⊤
update_user id f = modify λ s. record s { users = update_one (λ u. u.id == id) f s.users }

abbrev pub refreshed : NormalizedIdentity → Account → Account
refreshed identity u = record u {
  email = identity.email;
  first_name = get_or identity.first_name u.first_name;
  last_name = get_or identity.last_name u.last_name;
}

abbrev pub linked : NormalizedIdentity → Account → Account
linked identity u = record u { external_scim_id = some identity.external_id }

abbrev pub new_user : ℕ → ℕ → ℕ → NormalizedIdentity → Account
new_user id company_id tenant_id identity = record {
  id = id;
  tenant_id = tenant_id;
  company_id = company_id;
  email = identity.email;
  password_hash = none;
  first_name = get_or identity.first_name [];
  last_name = get_or identity.last_name [];
  is_active = true;
  external_scim_id = some identity.external_id;
}

-- The three ways of `upsertFromIdentity`, by the user with the external id and the one with the
-- email.
unfoldable pub upsert_by :
    Option Account → Option Account → ℕ → ℕ → NormalizedIdentity → ℕ → Action Store Account
upsert_by (some existing) by_email company_id tenant_id identity new_id = do
  require_free_email existing.id identity.email
  update_user existing.id (refreshed identity)
  pure (refreshed identity existing)
upsert_by none (some by_email) company_id tenant_id identity new_id = do
  require_free_external by_email.id by_email.company_id identity.external_id
  update_user by_email.id (linked identity)
  pure (linked identity by_email)
upsert_by none none company_id tenant_id identity new_id = do
  modify λ s. record s { users = s.users ++ new_user new_id company_id tenant_id identity ∷ [] }
  pure (new_user new_id company_id tenant_id identity)

unfoldable pub upsert_from_identity : ℕ → ℕ → NormalizedIdentity → ℕ → Action Store Account
upsert_from_identity company_id tenant_id identity new_id = do
  existing ← gets λ s.
      find_one
        (λ u. u.company_id == company_id && has_external identity.external_id u.external_scim_id)
        s.users
  by_email ← gets λ s. find_one (λ u. text_eq u.email identity.email) s.users
  upsert_by existing by_email company_id tenant_id identity new_id
