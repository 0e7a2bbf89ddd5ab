-- ===== src/Entity/Login.antt =====
-- entity/login.py. A password hash is the text that the hasher stores.
use auth_core.Prelude.{ℕ, String, Bool, Option, List}
use auth_core.Entity.User.{UserState}

pub data LoginDecisionType : Type 0 where
  session_ready mfa_required collision_proof_required : LoginDecisionType

abbrev pub decision_value : LoginDecisionType → String
decision_value session_ready = "session_ready"
decision_value mfa_required = "mfa_required"
decision_value collision_proof_required = "collision_proof_required"

pub data RiskLevel : Type 0 where
  low medium high : RiskLevel

abbrev pub risk_value : RiskLevel → String
risk_value low = "low"
risk_value medium = "medium"
risk_value high = "high"

pub data LoginErrorCode : Type 0 where
  invalid_credentials temporarily_locked otp_invalid captcha_invalid workflow_invalid oidc_invalid
        provider_unavailable :
      LoginErrorCode

pub record LoginError : Type 0 where
  pub code : LoginErrorCode
  pub message : String
  pub status_code : ℕ

pub record LoginIdentity : Type 0 where
  pub user_id : ℕ
  pub state : UserState
  pub password_hash : Option String
  pub verified : Bool
  pub has_phone : Bool

pub record DeviceSignals : Type 0 where
  pub known : Bool
  pub trusted : Bool
  pub ip_changed : Bool

pub record LoginDecision : Type 0 where
  pub decision : LoginDecisionType
  pub risk : RiskLevel
  pub workflow_token : String
  pub allowed_methods : List String
