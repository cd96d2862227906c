-- ===== src/Models/Users.antt =====
-- models/user.schemas.ts, and the role document that the services read.
use Prim.Native.String.{String}
use asset_hub.Prelude.{ℕ, Option, Bool, List}
use asset_hub.Prelude.Text.{Text}

pub data AccountType : Type 0 where
  tenant system : AccountType

pub record User : Type 0 where
  pub id : ℕ
  pub account_type : AccountType
  pub tenant_id : ℕ
  pub company_id : ℕ
  pub email : Text
  pub password_hash : Option Text
  pub first_name : Text
  pub last_name : Text
  pub job_title : Option Text
  pub phone : Option Text
  pub totp_secret_enc : Option Text
  pub backup_codes_hash : List Text
  pub is_active : Bool
  pub force_password_reset : Bool
  pub role_ids : List ℕ
  pub department_id : Option ℕ
  pub location_id : Option ℕ
  pub access_token_hash : Option Text
  pub access_token_expires_at : Option ℕ
  pub access_token_issued_at : Option ℕ

pub record Role : Type 0 where
  pub id : ℕ
  pub tenant_id : ℕ
  pub company_id : Option ℕ
  pub name : Text
  pub permissions : List String

pub record Session : Type 0 where
  pub id : ℕ
  pub user_id : ℕ
  pub refresh_token_hash : Text
  pub expires_at : ℕ
  pub revoked_at : Option ℕ
  pub revoked_reason : Option String
