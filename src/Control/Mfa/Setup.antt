-- ===== src/Control/Mfa/Setup.antt =====
-- control/mfa.py: what `MFAControl` holds, its errors, and the checks that the operations share. An
-- exception that no code catches is a fault as well. The hasher, AES-GCM, pyotp, WebAuthn, the senders of
-- messages and the keyed digests are the control's.
use auth_core.Prelude.{
  ℕ, String, Bool, true, false, not, Option, none, some, List, any_row, ◌==◌, if◌then◌else◌,
}
use Prim.Native.Char.{code}
use auth_core.Prelude.Action.{Action, raise_if, require, gets, modify, call, pure, ◌>>=◌, ◌>>◌}
use auth_core.Entity.Json.{Json, Members, text, object, get}
use auth_core.Entity.User.{state_is_active}
use auth_core.Entity.Text.{text_append}
use auth_core.Entity.Mfa.{
  MfaError, MfaErrorCode, MfaUserProfile, StoredPasskey, workflow_invalid, challenge_invalid,
  code_invalid, factor_locked, method_unavailable, enrollment_invalid, passkey_invalid, last_factor,
  provider_unavailable,
}
use auth_core.Security.{RedisSecurityStore, State, get_login_workflow, consume_login_workflow}
use auth_core.Providers.Totp.{Pyotp}
use auth_core.Providers.Cipher.{AesGcm}
use auth_core.Persistence.Tables.{Database, FactorType}
use auth_core.Persistence.MfaRepository.{user_profile, active_factors, Registration}
use auth_core.Control.Session.{World, is_text, uuid_of}
use auth_core.Control.Login.{LoginPasswordHasher}

abbrev pub mfa_failure_limit : ℕ
mfa_failure_limit = 3

abbrev pub mfa_failure_window : ℕ
mfa_failure_window = 900

abbrev pub otp_max_attempts : ℕ
otp_max_attempts = 3

abbrev pub otp_request_limit : ℕ
otp_request_limit = 3

abbrev pub otp_request_window : ℕ
otp_request_window = 60

pub data MfaFault : Type 0 where
  refused : MfaError → MfaFault
  uncaught : MfaFault

abbrev fault : MfaErrorCode → String → ℕ → MfaFault
fault code message status_code =
    refused (record { code = code; message = message; status_code = status_code })

abbrev pub workflow_error : MfaFault
workflow_error = fault workflow_invalid "This security workflow is invalid or expired." 400

abbrev pub challenge_error : MfaFault
challenge_error = fault challenge_invalid "This security challenge is invalid or expired." 400

abbrev pub code_error : MfaFault
code_error = fault code_invalid "The security code is invalid or expired." 400

abbrev pub locked_error : MfaFault
locked_error =
    fault factor_locked "This security method is temporarily locked. Please wait and try again." 429

abbrev pub requests_error : MfaFault
requests_error =
    fault factor_locked "Too many security-code requests. Please wait and try again." 429

abbrev pub method_error : MfaFault
method_error =
    fault method_unavailable "This security method is not available for the current workflow." 400

abbrev pub enrollment_error : MfaFault
enrollment_error = fault enrollment_invalid "This enrollment is invalid or expired." 400

abbrev pub passkey_error : MfaFault
passkey_error = fault passkey_invalid "The passkey response could not be verified." 400

abbrev pub last_factor_error : MfaFault
last_factor_error =
    fault last_factor "Enroll another strong security method before removing this one." 409

abbrev pub unavailable_error : MfaFault
unavailable_error =
    fault provider_unavailable "A required security-code service is temporarily unavailable." 503

-- The port to WebAuthn. A challenge is the text that it is stored as; none is an exception.
pub record WebAuthn : Type 1 where
  pub Credential : Type 0
  pub verify_registration : Credential → String → Option Registration
  pub credential_id : Credential → Option ℕ
  pub verify_authentication : Credential → String → StoredPasskey → Option (ℕ × Bool)

pub record MfaControl : Type 1 where
  pub redis : RedisSecurityStore
  pub password_hasher : LoginPasswordHasher
  pub aes : AesGcm
  pub pyotp : Pyotp
  pub webauthn : WebAuthn
  pub send_email_code : String → String → Bool
  pub send_sms_code : String → String → Bool
  pub otp_hash : String → ℕ
  pub backup_digest : String → ℕ
  pub upper : String → String
  pub uuid_bytes : ℕ → List ℕ

-- `{"totp", "passkey"}`
abbrev pub is_strong : FactorType → Bool
is_strong FactorType.totp = true
is_strong FactorType.passkey = true
is_strong _ = false

-- A value that is a text, or a dict.
abbrev pub text_of : Option Json → Option String
text_of (some (text s)) = some s
text_of _ = none

abbrev pub object_of : Option Json → Option Members
object_of (some (object m)) = some m
object_of _ = none

-- `code.replace("-", "")`
abbrev pub without_dashes : String → String
without_dashes String.[] = String.[]
without_dashes (String.◌∷◌ c s) =
    let rest = without_dashes s in if code c == b'-' then rest else String.◌∷◌ c rest

abbrev pub otp_purpose : String → String
otp_purpose challenge_token = text_append "mfa:" challenge_token

module _ (control : MfaControl) where
  -- `_backup_hash`
  abbrev pub backup_hash : String → ℕ
  backup_hash backup_code = control.backup_digest (control.upper (without_dashes backup_code))

  abbrev pub W : Type 0
  W = World (State control.redis)

  abbrev pub Act : Type 0 → Type 0
  Act A = Action MfaFault W A

  abbrev pub in_redis : (State control.redis → State control.redis) → Act Unit
  in_redis f = modify (λ w. record w { redis = f w.redis })

  abbrev pub from_redis : {A : Type 0} → (State control.redis → A × State control.redis) → Act A
  from_redis f = call λ w. let (a, s) = f w.redis in (a, record w { redis = s })

  abbrev pub transaction : {A : Type 0} → (Database → A × Database) → Act A
  transaction f = call λ w. let (a, db) = f w.database in (a, record w { database = db })

  -- `_workflow`
  abbrev pub workflow_user : Members → Act (Members × ℕ)
  workflow_user payload = do
    user_id ← require (uuid_of (get "user_id" payload)) workflow_error
    pure (payload, user_id)

  unfoldable pub workflow : ℕ → String → Act (Members × ℕ)
  workflow now token = do
    found ← gets (λ w. get_login_workflow control.redis now token w.redis)
    payload ← require found workflow_error
    workflow_user payload

  -- `_active_profile`
  unfoldable pub active_profile : ℕ → Act MfaUserProfile
  active_profile user_id = do
    found ← gets (λ w. user_profile user_id w.database)
    profile ← require found workflow_error
    raise_if (not (state_is_active profile.state)) workflow_error
    pure profile

  -- `_require_mfa_assurance`
  abbrev pub require_mfa_assurance : Members → Act Unit
  require_mfa_assurance payload =
      raise_if (not (is_text "mfa" (get "assurance" payload))) workflow_error

  -- `consumed = await self._redis.consume_login_workflow(...)`, and the check that follows it
  unfoldable pub consume_workflow : ℕ → String → Act Members
  consume_workflow now token = do
    consumed ← from_redis (consume_login_workflow control.redis now token)
    require consumed workflow_error

  -- `_require_enrollment_assurance`
  unfoldable pub require_enrollment_assurance : Members → ℕ → Act Unit
  require_enrollment_assurance payload user_id = do
    factors ← gets (λ w. active_factors user_id w.database)
    if any_row (λ f. is_strong f.factor_type) factors
        then require_mfa_assurance payload
        else pure tt
