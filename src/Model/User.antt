-- ===== src/Model/User.antt =====
-- app/core/models/user.py and ingestion_token.py
use ghostmon.Base.{ℕ, String, Option, Bool}

pub data AuthProvider : Type 0 where
  local oidc : AuthProvider

pub record User : Type 0 where
  pub id : ℕ
  pub email : String
  pub full_name : Option String
  pub auth_provider : AuthProvider
  pub password_hash : Option String
  pub oidc_subject : Option String
  pub is_active : Bool
  pub is_superuser : Bool

pub record IngestionToken : Type 0 where
  pub id : ℕ
  pub name : String
  pub token_hash : String
  pub last_used_at : Option ℕ
  pub owner_id : ℕ
