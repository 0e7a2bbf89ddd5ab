-- ===== src/Control/Mfa/Enroll.antt =====
-- control/mfa.py: the enrollment of a TOTP factor, and the proof of a password after a collision.
use auth_core.Prelude.{ℕ, String, Bool, false, not, Option, none, some, List}
use auth_core.Prelude.Action.{raise, raise_if, require, gets, pure, ◌>>=◌, ◌>>◌}
use auth_core.Entity.Json.{Members, text, uuid, object, member, end, get}
use auth_core.Entity.Mfa.{MfaCompletion, TotpEnrollment}
use auth_core.Security.{store_mfa_challenge, get_mfa_challenge, consume_mfa_challenge}
use auth_core.Providers.Totp
use auth_core.Providers.Cipher.{encrypt}
use auth_core.Persistence.MfaRepository.{
  factor, create_pending_totp, activate_totp, is_pending, password_hash,
}
use auth_core.Control.Session.{is_text, uuid_of}
use auth_core.Control.Mfa.Setup.{
  MfaControl, uncaught, Act, in_redis, from_redis, transaction, workflow, active_profile,
  consume_workflow, require_enrollment_assurance, enrollment_error, workflow_error, code_error,
  object_of,
}
use auth_core.Control.Mfa.Complete.{CompletionDraw, complete, ensure_backup_codes}
use auth_core.Control.Mfa.Verify.{usable, open_secret, record_factor_failure}

-- What an enrollment draws at random.
pub record EnrollmentDraw : Type 0 where
  pub secret : List ℕ
  pub nonce : List ℕ
  pub mfa_id : ℕ
  pub token : String

-- What a confirmation draws at random.
pub record ConfirmationDraw : Type 0 where
  pub codes : List String
  pub backup_id : ℕ
  pub completion : CompletionDraw

abbrev enrollment_payload : ℕ → ℕ → Members → Members
enrollment_payload user_id factor_id workflow = member "purpose" (text "enroll_totp") (
    member "user_id" (uuid user_id)
      (member "factor_id" (uuid factor_id) (member "workflow" (object workflow) end)))

abbrev pub with_codes : List String → MfaCompletion → MfaCompletion
with_codes codes c = record {
  result = c.result;
  workflow_token = c.workflow_token;
  backup_codes = codes;
}

module _ (control : MfaControl) where
  unfoldable pub setup_totp : ℕ → String → String → EnrollmentDraw → Act control TotpEnrollment
  setup_totp now workflow_token label draw = do
    (payload, user_id) ← workflow control now workflow_token
    profile ← active_profile control user_id
    require_enrollment_assurance control payload user_id
    consumed ← consume_workflow control now workflow_token
    created ← transaction control (
        create_pending_totp now user_id
          (encrypt control.aes draw.nonce draw.secret (control.uuid_bytes user_id)) label
          draw.mfa_id)
    in_redis control (
        store_mfa_challenge control.redis now draw.token
          (enrollment_payload user_id created.mfa_id consumed))
    pure (record { enrollment_token = draw.token; manual_secret = draw.secret })

  -- A code that is not accepted counts as a failure of the factor.
  abbrev accepted_or_raise : ℕ → ℕ → Option ℕ → Act control ℕ
  accepted_or_raise now factor_id (some accepted_step) = pure accepted_step
  accepted_or_raise now factor_id none = do
    record_factor_failure control now factor_id
    raise code_error

  unfoldable pub confirm_totp :
      ℕ → String → String → ℕ → ConfirmationDraw → Act control MfaCompletion
  confirm_totp now enrollment_token code correlation_id draw = do
    found ← gets (λ w. get_mfa_challenge control.redis now enrollment_token w.redis)
    payload ← require found enrollment_error
    raise_if (not (is_text "enroll_totp" (get "purpose" payload))) enrollment_error
    user_id ← require (uuid_of (get "user_id" payload)) uncaught
    factor_id ← require (uuid_of (get "factor_id" payload)) uncaught
    held ← gets (λ w. factor user_id factor_id w.database)
    pending ← require (usable is_pending held) enrollment_error
    secret ← require (open_secret control user_id pending.1) uncaught
    accepted_step ← accepted_or_raise now factor_id (Totp.verify control.pyotp now secret code none)
    activated ← transaction control (activate_totp now user_id factor_id accepted_step)
    raise_if (not activated) enrollment_error
    taken ← from_redis control (consume_mfa_challenge control.redis now enrollment_token)
    consumed ← require taken enrollment_error
    backup_codes ← ensure_backup_codes control now user_id draw.codes draw.backup_id
    payload_workflow ← require (object_of (get "workflow" consumed)) uncaught
    completion ←
        complete control now user_id payload_workflow "totp_enrollment" correlation_id
          draw.completion
    pure (with_codes backup_codes completion)

  abbrev is_password : Option String → String → Bool
  is_password none password = false
  is_password (some hash) password = control.password_hasher.verify hash password

  unfoldable pub prove_collision_password :
      ℕ → String → String → ℕ → CompletionDraw → Act control MfaCompletion
  prove_collision_password now workflow_token password correlation_id draw = do
    (payload, user_id) ← workflow control now workflow_token
    raise_if (not (is_text "collision_proof_required" (get "decision" payload))) workflow_error
    hash ← gets (λ w. password_hash user_id w.database)
    raise_if (not (is_password hash password)) code_error
    consumed ← consume_workflow control now workflow_token
    complete control now user_id consumed "password_reauthentication" correlation_id draw
