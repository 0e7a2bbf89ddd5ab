-- ===== src/Persistence/Tables/Sessions.antt =====
-- infrastructure/persistence/models.py: sessions and their refresh tokens.
use auth_core.Prelude.{ℕ, String, Option}
use auth_core.Entity.Session.{ClientType}

pub record RefreshTokenFamily : Type 0 where
  pub family_id : ℕ
  pub user_id : ℕ
  pub device_fingerprint_hash : ℕ
  pub client_id : ClientType
  pub created_at : ℕ
  pub absolute_expires_at : ℕ
  pub revoked_at : Option ℕ
  pub revocation_reason : Option String

pub record RefreshToken : Type 0 where
  pub refresh_token_id : ℕ
  pub family_id : ℕ
  pub token_hash : ℕ
  pub generation : ℕ
  pub issued_at : ℕ
  pub used_at : Option ℕ
  pub revoked_at : Option ℕ
  pub expires_at : ℕ

pub record Session : Type 0 where
  pub session_id : ℕ
  pub family_id : ℕ
  pub user_id : ℕ
  pub org_id : Option ℕ
  pub access_jti : ℕ
  pub client_id : ClientType
  pub device_fingerprint_hash : ℕ
  pub ip_address : Option String
  pub created_at : ℕ
  pub last_activity_at : ℕ
  pub expires_at : ℕ
  pub revoked_at : Option ℕ
