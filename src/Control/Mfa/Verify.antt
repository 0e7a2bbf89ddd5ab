-- ===== src/Control/Mfa/Verify.antt =====
-- control/mfa.py: the verification of a challenge, and what a failure counts for.
use auth_core.Prelude.{
  ℕ, String, Bool, true, false, not, Option, none, some, List, leb, if◌then◌else◌,
}
use auth_core.Prelude.Action.{raise, raise_if, require, gets, pure, ◌>>=◌, ◌>>◌}
use auth_core.Entity.Json.{Members, get}
use auth_core.Entity.Mfa.{
  MfaMethod, totp, email_otp, sms_otp, passkey, backup_code, method_value, MfaCompletion,
}
use auth_core.Security.{
  increment_rate_limit, verify_and_consume_otp, get_mfa_challenge, consume_mfa_challenge,
  lock_factor, factor_is_locked,
}
use auth_core.Security.Keys.{of_uuid}
use auth_core.Security.Scripts.{OtpReply, accepted}
use auth_core.Providers.Totp
use auth_core.Providers.Cipher.{decrypt}
use auth_core.Persistence.Tables.{StoredSecret, encrypted, code_hashes, FactorStatus}
use auth_core.Persistence.LoginRepository.{is_active_factor}
use auth_core.Persistence.MfaRepository.{MfaFactor, factor, advance_totp_step, consume_backup_code}
use auth_core.Control.Session.{is_text, uuid_of}
use auth_core.Control.Mfa.Setup.{
  MfaControl, backup_hash, uncaught, Act, in_redis, from_redis, transaction, challenge_error,
  code_error, locked_error, object_of, otp_purpose, otp_max_attempts, mfa_failure_limit,
  mfa_failure_window,
}
use auth_core.Control.Mfa.Complete.{CompletionDraw, complete}
use auth_core.Control.Mfa.Challenge.{method_of}

abbrev pub is_accepted : OtpReply → Bool
is_accepted accepted = true
is_accepted _ = false

-- `factor is None or factor.encrypted_secret is None or factor.status != "active"`
abbrev pub usable : (FactorStatus → Bool) → Option MfaFactor → Option (MfaFactor × StoredSecret)
usable has_status none = none
usable has_status (some f) = elim f.encrypted_secret [
  | none ↦ none
  | some secret ↦ if has_status f.status then some (f, secret) else none
]

module _ (control : MfaControl) where
  -- The secret of a factor: none where the cipher raises.
  abbrev pub open_secret : ℕ → StoredSecret → Option (List ℕ)
  open_secret user_id (encrypted bytes) = decrypt control.aes bytes (control.uuid_bytes user_id)
  open_secret user_id (code_hashes hashes) = none

  abbrev advance : ℕ → MfaFactor → Option ℕ → Act control Bool
  advance now f none = pure false
  advance now f (some accepted_step) =
      transaction control (advance_totp_step now f.mfa_id f.last_totp_step accepted_step)

  abbrev pub check_totp : ℕ → ℕ → String → Option (MfaFactor × StoredSecret) → Act control Bool
  check_totp now user_id code none = pure false
  check_totp now user_id code (some (f, stored)) = do
    secret ← require (open_secret user_id stored) uncaught
    advance now f (Totp.verify control.pyotp now secret code f.last_totp_step)

  -- `_verify_totp`, from the ids that the challenge holds
  unfoldable pub verify_totp : ℕ → ℕ → ℕ → String → Act control Bool
  verify_totp now user_id factor_id code = do
    locked ← gets (λ w. factor_is_locked control.redis now factor_id w.redis)
    raise_if locked locked_error
    found ← gets (λ w. factor user_id factor_id w.database)
    check_totp now user_id code (usable is_active_factor found)

  -- `_record_factor_failure`
  abbrev lock_if : Bool → ℕ → ℕ → Act control Unit
  lock_if true now factor_id = in_redis control (lock_factor control.redis now factor_id)
  lock_if false now factor_id = pure tt

  unfoldable pub record_factor_failure : ℕ → ℕ → Act control Unit
  record_factor_failure now factor_id = do
    count ← from_redis control (
        increment_rate_limit control.redis now "mfa_factor_failure" (of_uuid factor_id)
          mfa_failure_window)
    lock_if (leb mfa_failure_limit count) now factor_id

  abbrev forget_if : Bool → ℕ → String → Act control Unit
  forget_if true now challenge_token = do
    gone ← from_redis control (consume_mfa_challenge control.redis now challenge_token)
    pure tt
  forget_if false now challenge_token = pure tt

  unfoldable pub record_challenge_failure : ℕ → String → ℕ → Act control Unit
  record_challenge_failure now challenge_token user_id = do
    count ← from_redis control (
        increment_rate_limit control.redis now "mfa_challenge_failure" (of_uuid user_id)
          mfa_failure_window)
    forget_if (leb mfa_failure_limit count) now challenge_token

  -- `_record_failure`
  abbrev pub count_failure : ℕ → String → ℕ → MfaMethod → Members → Act control Unit
  count_failure now challenge_token user_id totp payload = do
    factor_id ← require (uuid_of (get "factor_id" payload)) uncaught
    record_factor_failure now factor_id
  count_failure now challenge_token user_id _ payload =
      record_challenge_failure now challenge_token user_id

  abbrev pub fail_unless : Bool → ℕ → String → ℕ → MfaMethod → Members → Act control Unit
  fail_unless true now challenge_token user_id method payload = pure tt
  fail_unless false now challenge_token user_id method payload = do
    count_failure now challenge_token user_id method payload
    raise code_error

  abbrev check_sent : ℕ → String → ℕ → String → Act control Bool
  check_sent now challenge_token user_id code = do
    reply ← from_redis control (
        verify_and_consume_otp control.redis now user_id (otp_purpose challenge_token)
          (control.otp_hash code) otp_max_attempts)
    pure (is_accepted reply)

  -- Whether a code is valid for a method.
  abbrev pub check_code : ℕ → String → ℕ → MfaMethod → Members → String → Act control Bool
  check_code now challenge_token user_id totp payload code = do
    factor_id ← require (uuid_of (get "factor_id" payload)) uncaught
    verify_totp now user_id factor_id code
  check_code now challenge_token user_id email_otp payload code =
      check_sent now challenge_token user_id code
  check_code now challenge_token user_id sms_otp payload code =
      check_sent now challenge_token user_id code
  check_code now challenge_token user_id backup_code payload code =
      transaction control (consume_backup_code now user_id (backup_hash control code))
  check_code now challenge_token user_id passkey payload code = pure false

  -- What follows a valid code.
  unfoldable pub finish_challenge :
      ℕ → String → ℕ → MfaMethod → ℕ → CompletionDraw → Act control MfaCompletion
  finish_challenge now challenge_token user_id method correlation_id draw = do
    taken ← from_redis control (consume_mfa_challenge control.redis now challenge_token)
    consumed ← require taken challenge_error
    workflow ← require (object_of (get "workflow" consumed)) uncaught
    complete control now user_id workflow (method_value method) correlation_id draw

  unfoldable pub verify_challenge :
      ℕ → String → String → ℕ → CompletionDraw → Act control MfaCompletion
  unfolding verify_totp record_factor_failure record_challenge_failure finish_challenge
  verify_challenge now challenge_token code correlation_id draw = do
    found ← gets (λ w. get_mfa_challenge control.redis now challenge_token w.redis)
    payload ← require found challenge_error
    raise_if (not (is_text "verify" (get "purpose" payload))) challenge_error
    user_id ← require (uuid_of (get "user_id" payload)) uncaught
    method ← require (method_of payload) uncaught
    valid ← check_code now challenge_token user_id method payload code
    fail_unless valid now challenge_token user_id method payload
    finish_challenge now challenge_token user_id method correlation_id draw
