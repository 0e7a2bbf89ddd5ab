-- ===== src/Entity/Recovery.antt =====
-- entity/recovery.py
use auth_core.Prelude.{ℕ, String, Option}
use auth_core.Entity.User.{UserState}

pub data RecoveryErrorCode : Type 0 where
  token_invalid password_reused password_policy password_breached rate_limited provider_unavailable
        contact_invalid contact_conflict recent_mfa_required staff_forbidden target_not_found
        governed_invalid four_eyes_required governed_too_early target_changed :
      RecoveryErrorCode

pub record RecoveryError : Type 0 where
  pub code : RecoveryErrorCode
  pub message : String
  pub status_code : ℕ

pub data PasswordResetOutcome : Type 0 where
  updated invalid reused : PasswordResetOutcome

pub data ContactType : Type 0 where
  email phone : ContactType

pub data ContactProof : Type 0 where
  old_contact new_contact : ContactProof

pub data StaffRole : Type 0 where
  support_agent_l2 security_supervisor_l3 account_admin : StaffRole

pub record RecoveryUser : Type 0 where
  pub user_id : ℕ
  pub email : Option String
  pub phone_e164 : Option String
  pub state : UserState
  pub version : ℕ

pub record ContactChangeRecord : Type 0 where
  pub request_id : ℕ
  pub user_id : ℕ
  pub contact_type : ContactType
  pub old_value : String
  pub new_value : String
  pub expires_at : ℕ
  pub old_verified_at : Option ℕ
  pub new_verified_at : Option ℕ
  pub applied_at : Option ℕ

-- `state` is the request's, which only the tables name.
pub record GovernedResetRecord (S : Type 0) : Type 0 where
  pub request_id : ℕ
  pub target_user_id : ℕ
  pub initiator_user_id : ℕ
  pub approver_user_id : Option ℕ
  pub state : S
  pub initiated_at : ℕ
  pub execute_after : ℕ
  pub approved_at : Option ℕ
  pub executed_at : Option ℕ
  pub ticket_reference : Option String
