-- ===== src/Persistence/Tables/Recovery.antt =====
-- infrastructure/persistence/models.py: governed requests, staff roles and contact changes.
use auth_core.Prelude.{ℕ, String, Option}
use auth_core.Entity.Recovery.{ContactType, StaffRole}

pub data GovernedState : Type 0 where
  pending approved rejected executed expired cancelled : GovernedState

pub record GovernedRequest : Type 0 where
  pub governed_request_id : ℕ
  pub request_type : String
  pub target_user_id : ℕ
  pub initiator_user_id : ℕ
  pub approver_user_id : Option ℕ
  pub state : GovernedState
  pub initiated_at : ℕ
  pub execute_after : ℕ
  pub approved_at : Option ℕ
  pub executed_at : Option ℕ
  pub target_user_version : ℕ
  pub ticket_reference : Option String

pub record StaffRoleBinding : Type 0 where
  pub user_id : ℕ
  pub role : StaffRole
  pub revoked_at : Option ℕ

pub data ContactState : Type 0 where
  pending applied expired cancelled : ContactState

pub record ContactChangeRequest : Type 0 where
  pub request_id : ℕ
  pub user_id : ℕ
  pub contact_type : ContactType
  pub old_value : String
  pub new_value : String
  pub old_code_hash : ℕ
  pub new_code_hash : ℕ
  pub state : ContactState
  pub expires_at : ℕ
  pub old_verified_at : Option ℕ
  pub new_verified_at : Option ℕ
  pub applied_at : Option ℕ
