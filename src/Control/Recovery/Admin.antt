-- ===== src/Control/Recovery/Admin.antt =====
-- control/recovery.py: `SupportAdminControl`.
use auth_core.Prelude.{ℕ, ◌+◌, String, Bool, true, not, ◌||◌, Option, none, some, is_none}
use auth_core.Entity.Text.{text_append}
use auth_core.Prelude.Action.{pure, raise_if, require, gets, call, ◌>>=◌, ◌>>◌}
use auth_core.Entity.Session.{AccessClaims}
use auth_core.Entity.Recovery.{
  RecoveryError, staff_forbidden, target_not_found, governed_invalid, RecoveryUser, StaffRole,
  support_agent_l2, security_supervisor_l3, account_admin,
}
use auth_core.Persistence.Tables.{Database, support_recovery}
use auth_core.Persistence.RecoveryRepository.{
  staff_has_role, unlock_user, suspend_user, issue_password_reset, GovernedRecord,
}
use auth_core.Persistence.RecoveryRepository
use auth_core.Control.Recovery.Setup.{
  RecoveryControl, Act, in_tx, in_database, require_recent_mfa, revoke_access, reset_ttl,
  governed_delay,
}

abbrev pub forbidden_error : RecoveryError
forbidden_error = record {
  code = staff_forbidden;
  message = "This staff action is not authorized.";
  status_code = 403;
}

abbrev target_missing : RecoveryError
target_missing = record {
  code = target_not_found;
  message = "The target account is unavailable for this action.";
  status_code = 404;
}

abbrev governed_error : RecoveryError
governed_error = record {
  code = governed_invalid;
  message = "This governed request is unavailable in its current state.";
  status_code = 409;
}

module _ (control : RecoveryControl) where
  abbrev transaction : {A : Type 0} → (Database → A × Database) → Act control A
  transaction f = call λ w. let (a, db) = f w.database in (a, record w { database = db })

  -- `_authorize`
  unfoldable pub authorize : AccessClaims → StaffRole → Act control Unit
  authorize claims role = do
    require_recent_mfa control claims
    allowed ← gets (λ w. staff_has_role claims.user_id role w.database)
    raise_if (not allowed) forbidden_error

  unfoldable pub unlock : AccessClaims → ℕ → String → ℕ → Act control Unit
  unfolding authorize
  unlock claims target ticket_reference correlation_id = do
    authorize claims support_agent_l2
    user ← transaction (unlock_user claims.user_id target ticket_reference correlation_id)
    raise_if (is_none user) target_missing

  unfoldable pub suspend : ℕ → AccessClaims → ℕ → String → String → ℕ → Act control Unit
  unfolding authorize
  suspend now claims target ticket_reference reason correlation_id = do
    authorize claims account_admin
    user ← transaction (suspend_user claims.user_id target ticket_reference reason correlation_id)
    raise_if (is_none user) target_missing
    revoke_access control now target "account_suspended"

  abbrev without_email : Option RecoveryUser → Bool
  without_email none = true
  without_email (some u) = is_none u.email

  unfoldable pub support_recovery_link :
      ℕ → AccessClaims → ℕ → String → String → ℕ → String → Act control Unit
  unfolding authorize
  support_recovery_link now claims target ticket_reference evidence_reference correlation_id token =
      do
        authorize claims support_agent_l2
        user ← transaction (unlock_user claims.user_id target ticket_reference correlation_id)
        raise_if (without_email user) target_missing
        in_database control (
            issue_password_reset now target (control.token_hash token) support_recovery
              (now + reset_ttl) correlation_id (some claims.user_id)
              (some (text_append ticket_reference (text_append ":" evidence_reference))))

  unfoldable pub initiate_mfa_reset :
      ℕ → AccessClaims → ℕ → String → ℕ → ℕ → Act control GovernedRecord
  unfolding authorize
  initiate_mfa_reset now claims target ticket_reference correlation_id request_id = do
    authorize claims support_agent_l2
    result ← transaction (
        RecoveryRepository.initiate_mfa_reset now claims.user_id target (now + governed_delay)
          ticket_reference correlation_id request_id)
    found ← require result target_missing
    pure found.0

  unfoldable pub approve_mfa_reset : ℕ → AccessClaims → ℕ → ℕ → Act control GovernedRecord
  unfolding authorize
  approve_mfa_reset now claims request_id correlation_id = do
    authorize claims security_supervisor_l3
    approved ←
        in_tx control
          (RecoveryRepository.approve_mfa_reset now claims.user_id request_id correlation_id)
    require approved governed_error

  unfoldable pub execute_mfa_reset : ℕ → AccessClaims → ℕ → ℕ → Act control GovernedRecord
  unfolding authorize
  execute_mfa_reset now claims request_id correlation_id = do
    authorize claims security_supervisor_l3
    executed ←
        in_tx control
          (RecoveryRepository.execute_mfa_reset now claims.user_id request_id correlation_id)
    found ← require executed governed_error
    revoke_access control now found.1.user_id "governed_mfa_reset"
    pure found.0

  unfoldable pub get_mfa_reset : AccessClaims → ℕ → Act control GovernedRecord
  get_mfa_reset claims request_id = do
    require_recent_mfa control claims
    allowed ← gets (λ w.
        staff_has_role claims.user_id support_agent_l2 w.database
        || staff_has_role claims.user_id security_supervisor_l3 w.database)
    raise_if (not allowed) forbidden_error
    found ← gets (λ w. RecoveryRepository.get_mfa_reset request_id w.database)
    require found governed_error
