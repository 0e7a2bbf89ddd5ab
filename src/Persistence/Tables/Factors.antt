-- ===== src/Persistence/Tables/Factors.antt =====
-- infrastructure/persistence/models.py: second factors and devices.
use auth_core.Prelude.{ℕ, String, Bool, Option, List}

pub data FactorType : Type 0 where
  totp sms email passkey backup_codes : FactorType

pub data FactorStatus : Type 0 where
  pending active revoked : FactorStatus

pub data TrustState : Type 0 where
  unknown trusted blocked : TrustState

-- `encrypted_secret`: what the cipher made, or a JSON list of the digests of backup codes.
pub data StoredSecret : Type 0 where
  encrypted : List ℕ → StoredSecret
  code_hashes : List ℕ → StoredSecret

pub record MfaDevice : Type 0 where
  pub mfa_id : ℕ
  pub user_id : ℕ
  pub factor_type : FactorType
  pub encrypted_secret : Option StoredSecret
  pub status : FactorStatus
  pub label : Option String
  pub verified_at : Option ℕ
  pub revoked_at : Option ℕ
  pub last_totp_step : Option ℕ
  pub last_used_at : Option ℕ

pub record WebAuthnCredential : Type 0 where
  pub credential_id : ℕ
  pub mfa_id : ℕ
  pub public_key : ℕ
  pub sign_count : ℕ
  pub transports : List String
  pub backup_eligible : Bool
  pub backup_state : Bool

pub record TrustedDevice : Type 0 where
  pub user_id : ℕ
  pub fingerprint_hash : ℕ
  pub trust_state : TrustState
  pub last_ip_address : Option String
  pub last_seen_at : ℕ
