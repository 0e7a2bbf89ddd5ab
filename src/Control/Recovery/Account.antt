-- ===== src/Control/Recovery/Account.antt =====
-- control/recovery.py: `RecoveryControl`.
use auth_core.Prelude.{
  ℕ, ◌+◌, String, Bool, true, false, not, Option, none, some, ltb, is_some, is_none, if◌then◌else◌,
}
use auth_core.Prelude.Action.{pure, raise, raise_if, require, gets, call, ◌>>=◌, ◌>>◌}
use auth_core.Entity.User.{normalize_email}
use auth_core.Entity.Text.{normalize_phone, is_six_digits}
use auth_core.Entity.PasswordPolicy.{password_fits}
use auth_core.Entity.Session.{AccessClaims}
use auth_core.Entity.Recovery.{
  RecoveryError, RecoveryErrorCode, RecoveryUser, PasswordResetOutcome, updated, invalid, reused,
  ContactType, email, phone, ContactProof, ContactChangeRecord,
}
use auth_core.Security.{increment_rate_limit}
use auth_core.Security.Keys.{of_text}
use auth_core.Persistence.Tables.{password_reset}
use auth_core.Persistence.RecoveryRepository.{
  eligible_user_by_email, issue_password_reset, consume_password_reset, ContactChange,
  create_contact_change,
}
use auth_core.Persistence.RecoveryRepository
use auth_core.Control.Recovery.Setup.{
  RecoveryControl, W, Act, in_tx, in_database, require_recent_mfa, revoke_access, reset_ttl,
  contact_change_ttl, password_reset_limit, password_reset_window_seconds, contact_invalid_error,
}

abbrev rate_limited_error : RecoveryError
rate_limited_error = record {
  code = RecoveryErrorCode.rate_limited;
  message = "Too many requests. Please wait and try again.";
  status_code = 429;
}

-- The error of the password policy, as `reset_password` passes it on.
abbrev policy_error : RecoveryError
policy_error = record {
  code = RecoveryErrorCode.password_policy;
  message = "Use a password between 12 and 128 characters.";
  status_code = 400;
}

abbrev breached_error : RecoveryError
breached_error = record {
  code = RecoveryErrorCode.password_breached;
  message = "Choose a password that has not appeared in a known public breach.";
  status_code = 400;
}

abbrev unavailable_error : RecoveryError
unavailable_error = record {
  code = RecoveryErrorCode.provider_unavailable;
  message = "A required security service is temporarily unavailable. Please try again.";
  status_code = 503;
}

abbrev reused_error : RecoveryError
reused_error = record {
  code = RecoveryErrorCode.password_reused;
  message = "Choose a password you have not used recently.";
  status_code = 400;
}

abbrev pub link_error : RecoveryError
link_error = record {
  code = RecoveryErrorCode.token_invalid;
  message = "This recovery link is invalid, expired, or has already been used.";
  status_code = 400;
}

module _ (control : RecoveryControl) where
  abbrev count_request : ℕ → String → W control → ℕ × W control
  count_request now subject w =
      let (n, s) =
        increment_rate_limit control.sessions.redis now "password_reset" (of_text subject)
          password_reset_window_seconds w.redis in
      (n, record w { redis = s })

  -- The user that a link is sent to: one that is found, and has an email address.
  abbrev has_email : Option RecoveryUser → Option RecoveryUser
  has_email none = none
  has_email (some u) = if is_none u.email then none else some u

  abbrev issue_link : ℕ → ℕ → String → Option RecoveryUser → Act control Unit
  issue_link now correlation_id token none = pure tt
  issue_link now correlation_id token (some u) = in_database control (
      issue_password_reset now u.user_id (control.token_hash token) password_reset (now + reset_ttl)
        correlation_id none none)

  unfoldable pub request_password_reset : ℕ → String → ℕ → String → Act control Unit
  request_password_reset now email_address correlation_id token = do
    let normalized = normalize_email control.text_methods email_address
    count ← call (count_request now normalized)
    raise_if (ltb password_reset_limit count) rate_limited_error
    user ← gets (λ w. eligible_user_by_email normalized w.database)
    issue_link now correlation_id token (has_email user)

  abbrev check_breach : Option ℕ → Act control Unit
  check_breach none = raise unavailable_error
  check_breach (some count) = raise_if (ltb 0 count) breached_error

  abbrev consume :
      ℕ
      → String
      → String
      → ℕ
      → ℕ
      → ℕ
      → W control
      → (PasswordResetOutcome × Option RecoveryUser) × W control
  consume now token password salt correlation_id history_id w =
      let (r, db) =
        consume_password_reset control.password_hasher.verify now (control.token_hash token)
          password (control.password_hasher.hash salt password) correlation_id history_id
          w.database in
      (r, record w { database = db })

  -- The user of an outcome that does not raise.
  abbrev updated_user : PasswordResetOutcome × Option RecoveryUser → Act control RecoveryUser
  updated_user (reused, user) = raise reused_error
  updated_user (updated, some user) = pure user
  updated_user (updated, none) = raise link_error
  updated_user (invalid, user) = raise link_error

  unfoldable pub reset_password : ℕ → String → String → ℕ → ℕ → ℕ → Act control Unit
  reset_password now token password salt correlation_id history_id = do
    raise_if (not (password_fits password)) policy_error
    check_breach (control.breach_count password)
    result ← call (consume now token password salt correlation_id history_id)
    user ← updated_user result
    revoke_access control now user.user_id "password_reset"

  -- `_normalize_contact`
  abbrev normalize_contact : ContactType → String → Option String
  normalize_contact email value = some (normalize_email control.text_methods value)
  normalize_contact phone value = normalize_phone control.classes value

  abbrev change_of : ℕ → AccessClaims → ContactType → String → String → String → ℕ → ContactChange
  change_of now claims contact_type value old_code new_code request_id = record {
    user_id = claims.user_id;
    contact_type = contact_type;
    new_value = value;
    old_code_hash = control.otp_hash old_code;
    new_code_hash = control.otp_hash new_code;
    expires_at = now + contact_change_ttl;
    request_id = request_id;
  }

  unfoldable pub start_contact_change :
      ℕ
      → AccessClaims
      → ContactType
      → String
      → ℕ
      → String
      → String
      → ℕ
      → Act control ContactChangeRecord
  start_contact_change now claims contact_type new_value correlation_id old_code new_code
        request_id =
      do
        require_recent_mfa control claims
        value ← require (normalize_contact contact_type new_value) contact_invalid_error
        created ← in_tx control (
            create_contact_change
              (change_of now claims contact_type value old_code new_code request_id) correlation_id)
        require created contact_invalid_error

  abbrev revoke_if_applied : ℕ → ℕ → Bool → Act control Unit
  revoke_if_applied now user_id false = pure tt
  revoke_if_applied now user_id true = revoke_access control now user_id "contact_change"

  unfoldable pub verify_contact_change :
      ℕ → AccessClaims → ℕ → ContactProof → String → ℕ → Act control ContactChangeRecord
  verify_contact_change now claims request_id proof code correlation_id = do
    require_recent_mfa control claims
    raise_if (not (is_six_digits control.classes code)) contact_invalid_error
    verified ← in_tx control (
        RecoveryRepository.verify_contact_change now claims.user_id request_id proof
          (control.otp_hash code) correlation_id)
    change ← require verified contact_invalid_error
    revoke_if_applied now claims.user_id (is_some change.applied_at)
    pure change
