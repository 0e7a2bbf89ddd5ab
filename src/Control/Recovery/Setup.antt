-- ===== src/Control/Recovery/Setup.antt =====
-- control/recovery.py: what the two controls hold, and the check of recent authentication. Both
-- revoke sessions through the session control, whose Redis holds the rate limits as well.
use auth_core.Prelude.{ℕ, ◌*◌, String, Bool, not, Option, List, [], ◌∷◌, str_eq, any_row}
use auth_core.Prelude.Action.{Action, modify, raise_if}
use auth_core.Redis.{second}
use auth_core.Entity.User.{TextMethods}
use auth_core.Entity.Text.{CharacterClasses}
use auth_core.Entity.Session.{AccessClaims}
use auth_core.Entity.Recovery.{RecoveryError, recent_mfa_required, contact_invalid}
use auth_core.Security.{State}
use auth_core.Persistence.Tables.{Database}
use auth_core.Persistence.RecoveryRepository.{Tx}
use auth_core.Control.Session.{SessionControl, World, revoke_user_access}
use auth_core.Control.Login.{LoginPasswordHasher}

abbrev pub reset_ttl : ℕ
reset_ttl = 15 * 60 * second

abbrev pub contact_change_ttl : ℕ
contact_change_ttl = 10 * 60 * second

abbrev pub governed_delay : ℕ
governed_delay = 12 * 3600 * second

abbrev pub password_reset_limit : ℕ
password_reset_limit = 3

abbrev pub password_reset_window_seconds : ℕ
password_reset_window_seconds = 3600

abbrev pub strong_methods : List String
strong_methods = "totp" ∷ "passkey" ∷ "email" ∷ "sms" ∷ "backup_code" ∷ "backup_codes" ∷ []

-- The breach provider answers with a count, or fails.
pub record RecoveryControl : Type 1 where
  pub sessions : SessionControl
  pub password_hasher : LoginPasswordHasher
  pub breach_count : String → Option ℕ
  pub text_methods : TextMethods
  pub classes : CharacterClasses
  pub token_hash : String → ℕ
  pub otp_hash : String → ℕ

abbrev pub recent_mfa_error : RecoveryError
recent_mfa_error = record {
  code = recent_mfa_required;
  message = "Complete a recent extra security check before continuing.";
  status_code = 403;
}

abbrev pub contact_invalid_error : RecoveryError
contact_invalid_error = record {
  code = contact_invalid;
  message = "The contact-change request or verification code is invalid or expired.";
  status_code = 400;
}

-- `STRONG_METHODS.intersection(claims.assurance)`
abbrev pub has_recent_mfa : List String → Bool
has_recent_mfa assurance = any_row (λ m. any_row (str_eq m) strong_methods) assurance

module _ (control : RecoveryControl) where
  abbrev pub W : Type 0
  W = World (State control.sessions.redis)

  abbrev pub Act : Type 0 → Type 0
  Act A = Action RecoveryError W A

  -- A transaction that may raise, and one that does not.
  abbrev pub in_tx : {A : Type 0} → Tx A → Act A
  in_tx m w = let (r, db) = m w.database in (r, record w { database = db })

  abbrev pub in_database : (Database → Database) → Act Unit
  in_database f = modify (λ w. record w { database = f w.database })

  abbrev pub require_recent_mfa : AccessClaims → Act Unit
  require_recent_mfa claims = raise_if (not (has_recent_mfa claims.assurance)) recent_mfa_error

  -- `await self._session_revoker.revoke_user_access(...)`, which never raises
  abbrev pub revoke_access : ℕ → ℕ → String → Act Unit
  revoke_access now user_id reason =
      modify (λ w. (revoke_user_access control.sessions now user_id reason w).1)
