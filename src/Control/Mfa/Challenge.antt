-- ===== src/Control/Mfa/Challenge.antt =====
-- control/mfa.py: a challenge for a method, and the codes that are sent.
use auth_core.Prelude.{
  ℕ, String, Bool, true, false, not, ◌||◌, Option, none, some, List, ltb, str_eq, find_row,
  if◌then◌else◌,
}
use auth_core.Prelude.Action.{raise, raise_if, require, gets, pure, ◌>>=◌, ◌>>◌}
use auth_core.Entity.Json.{Members, text, uuid, object, member, end, get}
use auth_core.Entity.Text.{text_append}
use auth_core.Entity.Mfa.{
  MfaMethod, totp, email_otp, sms_otp, passkey, backup_code, method_value, MfaUserProfile,
  MfaChallenge,
}
use auth_core.Security.{
  increment_rate_limit, store_otp_hash, consume_otp, store_mfa_challenge, get_mfa_challenge,
}
use auth_core.Security.Keys.{of_text}
use auth_core.Persistence.Tables.{FactorType}
use auth_core.Persistence.LoginRepository.{present}
use auth_core.Persistence.MfaRepository.{MfaFactor, active_factors, same_factor}
use auth_core.Control.Session.{is_text, uuid_of}
use auth_core.Control.Mfa.Setup.{
  MfaControl, uncaught, Act, in_redis, from_redis, workflow, active_profile, consume_workflow,
  method_error, challenge_error, requests_error, unavailable_error, text_of, otp_purpose,
  otp_request_limit, otp_request_window,
}
use auth_core.Control.Mfa.Factors.{offers}

abbrev pub method_named : String → Option MfaMethod
method_named s =
    if str_eq s "totp"
    then some totp
    else if str_eq s "email_otp"
    then some email_otp
    else if str_eq s "sms_otp"
    then some sms_otp
    else if str_eq s "passkey"
    then some passkey
    else if str_eq s "backup_code"
    then some backup_code
    else none

-- `MFAMethod(str(payload["method"]))`
abbrev pub method_of : Members → Option MfaMethod
method_of payload = elim (text_of (get "method" payload)) [ none ↦ none | some s ↦ method_named s ]

abbrev pub is_passkey : MfaMethod → Bool
is_passkey passkey = true
is_passkey _ = false

abbrev pub is_sent : MfaMethod → Bool
is_sent email_otp = true
is_sent sms_otp = true
is_sent _ = false

-- The members that a challenge of a method has besides.
abbrev factor_member : MfaMethod → List MfaFactor → Members
factor_member totp factors =
    elim (find_row (λ f. same_factor f.factor_type FactorType.totp) factors) [
      | none ↦ end
      | some f ↦ member "factor_id" (uuid f.mfa_id) end
    ]
factor_member _ factors = end

abbrev challenge_payload : MfaMethod → ℕ → Members → Members → Members
challenge_payload method user_id workflow rest = member "purpose" (text "verify") (
    member "method" (text (method_value method))
      (member "user_id" (uuid user_id) (member "workflow" (object workflow) rest)))

module _ (control : MfaControl) where
  abbrev sent : Option String → Option String → String → Bool
  sent (some email) phone code = control.send_email_code email code
  sent none (some phone) code = control.send_sms_code phone code
  sent none none code = true

  -- The sender of the code failed: the code is consumed.
  abbrev undo_unless : Bool → ℕ → String → Act control Unit
  undo_unless true user_id challenge_token = pure tt
  undo_unless false user_id challenge_token = do
    in_redis control (consume_otp control.redis user_id (otp_purpose challenge_token))
    raise unavailable_error

  abbrev either : Option String → Option String → Option String
  either none phone = phone
  either (some email) phone = some email

  -- `_send_otp`, with the code that it draws
  unfoldable pub send_otp :
      ℕ → String → ℕ → MfaMethod → Option String → Option String → String → Act control Unit
  send_otp now challenge_token user_id method email phone code = do
    subject ← require (either (present email) (present phone)) method_error
    count ← from_redis control (
        increment_rate_limit control.redis now (text_append "mfa_" (method_value method))
          (of_text subject) otp_request_window)
    raise_if (ltb otp_request_limit count) requests_error
    in_redis control (
        store_otp_hash control.redis now user_id (otp_purpose challenge_token)
          (control.otp_hash code))
    undo_unless (sent (present email) (present phone) code) user_id challenge_token

  -- What an issued challenge sends: nothing for an address that is empty.
  abbrev send_if : Option String → Act control Unit → Act control Unit
  send_if none send = pure tt
  send_if (some address) send = send

  abbrev send_code : ℕ → String → ℕ → MfaMethod → MfaUserProfile → String → Act control Unit
  send_code now token user_id email_otp profile code =
      send_if (present profile.email) (send_otp now token user_id email_otp profile.email none code)
  send_code now token user_id sms_otp profile code =
      send_if (present profile.phone_e164)
        (send_otp now token user_id sms_otp none profile.phone_e164 code)
  send_code now token user_id _ profile code = pure tt

  unfoldable pub issue_challenge :
      ℕ → String → MfaMethod → String → String → Act control MfaChallenge
  issue_challenge now workflow_token method token code = do
    (payload, user_id) ← workflow control now workflow_token
    profile ← active_profile control user_id
    factors ← gets (λ w. active_factors user_id w.database)
    raise_if (not (offers profile factors method) || is_passkey method) method_error
    consumed ← consume_workflow control now workflow_token
    send_code now token user_id method profile code
    in_redis control (
        store_mfa_challenge control.redis now token
          (challenge_payload method user_id consumed (factor_member method factors)))
    pure (record { challenge_token = token; challenge_method = method })

  abbrev address_of : MfaMethod → MfaMethod → Option String → Option String
  address_of email_otp email_otp address = address
  address_of sms_otp sms_otp address = address
  address_of _ _ address = none

  unfoldable pub resend_challenge : ℕ → String → String → Act control MfaChallenge
  resend_challenge now challenge_token code = do
    found ← gets (λ w. get_mfa_challenge control.redis now challenge_token w.redis)
    payload ← require found challenge_error
    raise_if (not (is_text "verify" (get "purpose" payload))) challenge_error
    method ← require (method_of payload) uncaught
    raise_if (not (is_sent method)) method_error
    user_id ← require (uuid_of (get "user_id" payload)) uncaught
    profile ← active_profile control user_id
    send_otp now challenge_token user_id method (address_of method email_otp profile.email)
        (address_of method sms_otp profile.phone_e164) code
    pure (record { challenge_token = challenge_token; challenge_method = method })
