-- ===== src/Entity/Session.antt =====
-- entity/session.py. UUIDs are their numbers, hexadecimal digests too; times count microseconds.
use auth_core.Prelude.{ℕ, String, Bool, true, false, Option, List}

pub data ClientType : Type 0 where
  web mobile : ClientType

abbrev pub same_client : ClientType → ClientType → Bool
same_client ClientType.web ClientType.web = true
same_client ClientType.mobile ClientType.mobile = true
same_client _ _ = false

pub data SessionErrorCode : Type 0 where
  workflow_invalid token_invalid token_reused session_expired session_not_found csrf_invalid
        client_mismatch :
      SessionErrorCode

pub data RotationStatus : Type 0 where
  rotated invalid reused expired client_mismatch : RotationStatus

abbrev pub client_value : ClientType → String
client_value ClientType.web = "WEB"
client_value ClientType.mobile = "MOBILE"

pub record SessionError : Type 0 where
  pub code : SessionErrorCode
  pub message : String
  pub status_code : ℕ

pub record AccessClaims : Type 0 where
  pub user_id : ℕ
  pub session_id : ℕ
  pub family_id : ℕ
  pub jti : ℕ
  pub issued_at : ℕ
  pub expires_at : ℕ
  pub client_type : ClientType
  pub assurance : List String
  pub workspace_id : Option ℕ
  pub workspace_type : Option String
  pub roles : List String

-- The access token is a text of the signing library's own.
pub record TokenPair (Token : Type 0) : Type 0 where
  pub access_token : Token
  pub refresh_token : String
  pub access_expires_at : ℕ
  pub refresh_expires_at : ℕ
  pub session_id : ℕ
  pub csrf_token : Option String

pub record SessionRecord : Type 0 where
  pub session_id : ℕ
  pub family_id : ℕ
  pub user_id : ℕ
  pub access_jti : ℕ
  pub client_type : ClientType
  pub device_fingerprint_hash : ℕ
  pub ip_address : Option String
  pub created_at : ℕ
  pub last_activity_at : ℕ
  pub expires_at : ℕ
  pub revoked_at : Option ℕ

pub record SessionSummary : Type 0 where
  pub session_id : ℕ
  pub client_type : ClientType
  pub device_hint : ℕ
  pub ip_address : Option String
  pub created_at : ℕ
  pub last_activity_at : ℕ
  pub expires_at : ℕ
  pub current : Bool

pub record RevocationResult : Type 0 where
  pub user_id : ℕ
  pub family_id : ℕ
  pub access_jti : ℕ

pub record CreatedSession : Type 0 where
  pub created : SessionRecord
  pub evicted : List RevocationResult

pub record RotationResult : Type 0 where
  pub status : RotationStatus
  pub rotated_session : Option SessionRecord
  pub revoked : Option RevocationResult
