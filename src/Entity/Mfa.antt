-- ===== src/Entity/Mfa.antt =====
-- entity/mfa.py
use auth_core.Prelude.{ℕ, String, Bool, Option, List}
use auth_core.Entity.User.{UserState}

pub data MfaMethod : Type 0 where
  totp email_otp sms_otp passkey backup_code : MfaMethod

abbrev pub method_value : MfaMethod → String
method_value totp = "totp"
method_value email_otp = "email_otp"
method_value sms_otp = "sms_otp"
method_value passkey = "passkey"
method_value backup_code = "backup_code"

pub data MfaCompletionType : Type 0 where
  session_ready identity_linked : MfaCompletionType

pub data MfaErrorCode : Type 0 where
  workflow_invalid method_unavailable challenge_invalid code_invalid factor_locked
        enrollment_invalid passkey_invalid last_factor provider_unavailable :
      MfaErrorCode

pub record MfaError : Type 0 where
  pub code : MfaErrorCode
  pub message : String
  pub status_code : ℕ

pub record MfaUserProfile : Type 0 where
  pub user_id : ℕ
  pub state : UserState
  pub email : Option String
  pub phone_e164 : Option String

pub record StoredPasskey : Type 0 where
  pub credential_id : ℕ
  pub mfa_id : ℕ
  pub user_id : ℕ
  pub public_key : ℕ
  pub sign_count : ℕ
  pub transports : List String
  pub backup_eligible : Bool
  pub backup_state : Bool

pub record MfaChallenge : Type 0 where
  pub challenge_token : String
  pub challenge_method : MfaMethod

pub record TotpEnrollment : Type 0 where
  pub enrollment_token : String
  pub manual_secret : List ℕ

pub record MfaCompletion : Type 0 where
  pub result : MfaCompletionType
  pub workflow_token : Option String
  pub backup_codes : List String
