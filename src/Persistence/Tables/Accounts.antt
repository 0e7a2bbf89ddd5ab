-- ===== src/Persistence/Tables/Accounts.antt =====
-- infrastructure/persistence/models.py: users, how they log in, and what is on record about them.
use auth_core.Prelude.{ℕ, String, Bool, Option}
use auth_core.Entity.User.{UserState}
use auth_core.Entity.Json.{Members}

pub record User : Type 0 where
  pub user_id : ℕ
  pub email : Option String
  pub given_name : Option String
  pub family_name : Option String
  pub phone_e164 : Option String
  pub state : UserState
  pub version : ℕ
  pub anonymized_at : Option ℕ

-- The values that the check constraints of the tables allow.
pub data IdentityProvider : Type 0 where
  password google apple microsoft phone : IdentityProvider

pub record Identity : Type 0 where
  pub identity_id : ℕ
  pub user_id : ℕ
  pub provider : IdentityProvider
  pub provider_subject : String
  pub password_hash : Option String
  pub verified : Bool
  pub last_used_at : Option ℕ

pub record PasswordHistory : Type 0 where
  pub history_id : ℕ
  pub identity_id : ℕ
  pub password_hash : String
  pub created_at : ℕ

-- What an ephemeral token is good for, as migration 0009 constrains it.
pub data TokenPurpose : Type 0 where
  email_verify phone_verify password_reset support_recovery invite : TokenPurpose

pub record EphemeralToken : Type 0 where
  pub user_id : Option ℕ
  pub token_hash : ℕ
  pub purpose : TokenPurpose
  pub metadata : Members
  pub expires_at : ℕ
  pub consumed_at : Option ℕ

pub record AuditLog : Type 0 where
  pub actor_user_id : Option ℕ
  pub subject_user_id : Option ℕ
  pub event_type : String
  pub outcome : String
  pub correlation_id : ℕ
  pub metadata : Members
