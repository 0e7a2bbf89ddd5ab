-- ===== src/Control/Login/Phone.antt =====
-- control/login.py: logging in with a code that is sent to a phone, and the start of an OIDC login. The
-- captcha, the sender of messages and the digest of a code are ports of the control.
use auth_core.Prelude.{
  ℕ, String, Bool, true, false, not, ◌&&◌, Option, none, some, ltb, str_eq, if◌then◌else◌,
}
use auth_core.Prelude.Action.{pure, raise, raise_if, require, gets, modify, call, ◌>>=◌, ◌>>◌}
use auth_core.Entity.Json.{text, member, end}
use auth_core.Entity.User.{state_is_active}
use auth_core.Entity.Text.{CharacterClasses, normalize_phone}
use auth_core.Entity.Login.{LoginErrorCode, LoginIdentity, LoginDecision}
use auth_core.Security.{
  increment_rate_limit, store_otp_hash, consume_otp, verify_and_consume_otp, store_oidc_workflow,
}
use auth_core.Security.Keys.{of_text}
use auth_core.Security.Scripts.{OtpReply, accepted}
use auth_core.Persistence.LoginRepository.{phone_identity}
use auth_core.Control.Login.Setup.{LoginControl, LoginFault, fault}
use auth_core.Control.Login.Decision.{W, Act, in_redis, audit, primary_decision}

abbrev phone_otp_limit : ℕ
phone_otp_limit = 3

abbrev phone_otp_window : ℕ
phone_otp_window = 60

abbrev pub otp_max_attempts : ℕ
otp_max_attempts = 3

-- The captcha's answer is none where its provider raises.
pub record PhonePorts : Type 0 where
  pub verify_captcha : String → Option String → String → Option Bool
  pub send_verification : String → String → Bool
  pub otp_hash : String → ℕ
  pub classes : CharacterClasses

abbrev pub invalid_otp : LoginFault
invalid_otp = fault LoginErrorCode.otp_invalid "The verification code is invalid or expired." 400

abbrev invalid_oidc : LoginFault
invalid_oidc =
    fault LoginErrorCode.oidc_invalid "The social login response could not be verified." 400

abbrev unavailable_error : LoginFault
unavailable_error =
    fault LoginErrorCode.provider_unavailable
      "A required login service is temporarily unavailable. Please try again." 503

abbrev captcha_error : LoginFault
captcha_error =
    fault LoginErrorCode.captcha_invalid
      "The security check could not be verified. Please try again." 400

abbrev requests_error : LoginFault
requests_error =
    fault LoginErrorCode.temporarily_locked "Too many requests. Please wait and try again." 429

-- The identity that may log in by phone, none otherwise.
abbrev pub usable_identity : Option LoginIdentity → Option LoginIdentity
usable_identity none = none
usable_identity (some i) = if i.verified && state_is_active i.state then some i else none

abbrev pub is_accepted : OtpReply → Bool
is_accepted accepted = true
is_accepted _ = false

-- `_provider`, none where it raises
abbrev provider_of : (String → String) → String → Option String
provider_of casefold provider =
    let normalized = casefold provider in
    if str_eq normalized "google"
    then some normalized
    else if str_eq normalized "apple"
    then some normalized
    else if str_eq normalized "microsoft"
    then some normalized
    else none

module _ (control : LoginControl) (ports : PhonePorts) where
  -- `_verify_captcha`
  abbrev check_captcha : Option Bool → Act control Unit
  check_captcha none = raise unavailable_error
  check_captcha (some valid) = raise_if (not valid) captcha_error

  abbrev count_request : ℕ → String → W control → ℕ × W control
  count_request now phone w =
      let (n, s) =
        increment_rate_limit control.redis now "login_phone_request" (of_text phone)
          phone_otp_window w.redis in
      (n, record w { redis = s })

  -- The sender of the code failed: the code is consumed.
  abbrev undo_unless : Bool → ℕ → Act control Unit
  undo_unless true user_id = pure tt
  undo_unless false user_id = do
    modify (in_redis control (consume_otp control.redis user_id "phone_login"))
    raise unavailable_error

  abbrev send_code : ℕ → String → String → Option LoginIdentity → Act control Unit
  send_code now phone code none = pure tt
  send_code now phone code (some i) = do
    modify (
        in_redis control
          (store_otp_hash control.redis now i.user_id "phone_login" (ports.otp_hash code)))
    undo_unless (ports.send_verification phone code) i.user_id

  -- With the code that it draws.
  unfoldable pub request_phone_otp : ℕ → String → String → Option String → String → Act control Unit
  request_phone_otp now phone captcha_token ip_address code = do
    normalized_phone ← require (normalize_phone ports.classes phone) invalid_otp
    check_captcha (ports.verify_captcha captcha_token ip_address "login_phone_request")
    count ← call (count_request now normalized_phone)
    raise_if (ltb phone_otp_limit count) requests_error
    found ← gets (λ w. phone_identity normalized_phone w.database)
    send_code now normalized_phone code (usable_identity found)

  abbrev present_code : ℕ → ℕ → String → W control → OtpReply × W control
  present_code now user_id code w =
      let (reply, s) =
        verify_and_consume_otp control.redis now user_id "phone_login" (ports.otp_hash code)
          otp_max_attempts w.redis in
      (reply, record w { redis = s })

  abbrev fail_unless : Bool → ℕ → ℕ → Act control Unit
  fail_unless true event_id user_id = pure tt
  fail_unless false event_id user_id = do
    audit control "PHONE_LOGIN_FAILED" "failure" event_id (some user_id) end
    raise invalid_otp

  unfoldable pub login_phone :
      ℕ → String → String → String → String → Option String → ℕ → String → Act control LoginDecision
  login_phone now phone code captcha_token fingerprint ip_address event_id token = do
    normalized_phone ← require (normalize_phone ports.classes phone) invalid_otp
    check_captcha (ports.verify_captcha captcha_token ip_address "login_phone_confirm")
    found ← gets (λ w. phone_identity normalized_phone w.database)
    identity ← require (usable_identity found) invalid_otp
    outcome ← call (present_code now identity.user_id code)
    fail_unless (is_accepted outcome) event_id identity.user_id
    primary_decision control now identity fingerprint ip_address "phone_otp" event_id token

  -- The state, under which the nonce and the verifier are stored. The URL is left out.
  unfoldable pub start_oidc : ℕ → String → String → String → String → Act control String
  start_oidc now provider state nonce verifier = do
    normalized_provider ← require (provider_of control.text_methods.casefold provider) invalid_oidc
    modify (
        in_redis control (
          store_oidc_workflow control.redis now state (
            member "provider" (text normalized_provider)
              (member "nonce" (text nonce) (member "code_verifier" (text verifier) end)))))
    pure state
