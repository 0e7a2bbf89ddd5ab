-- ===== src/Control/Login/Setup.antt =====
-- control/login.py: what `LoginControl` holds, its errors, and the score of a device. The hasher and
-- the keyed digest are the control's; a hash takes the salt that it draws.
use auth_core.Prelude.{ℕ, ◌+◌, String, Bool, ◌&&◌, Option, none, some, List, [], leb, if◌then◌else◌}
use auth_core.Entity.Json.{Json, Members, texts, member, end}
use auth_core.Entity.User.{TextMethods, state_is_active}
use auth_core.Entity.Login.{
  LoginDecisionType, RiskLevel, LoginError, LoginErrorCode, LoginIdentity, DeviceSignals,
}
use auth_core.Security.{RedisSecurityStore}
use auth_core.Persistence.LoginRepository.{present}

abbrev pub password_attempt_limit : ℕ
password_attempt_limit = 5

abbrev pub password_attempt_window : ℕ
password_attempt_window = 60

-- control/ports/login.py: the port to the hashing library.
pub record LoginPasswordHasher : Type 0 where
  pub hash : ℕ → String → String
  pub verify : String → String → Bool
  pub needs_rehash : String → Bool

pub record LoginControl : Type 1 where
  pub redis : RedisSecurityStore
  pub password_hasher : LoginPasswordHasher
  pub text_methods : TextMethods
  pub inet : String → Option String
  pub signal_hash : String → ℕ
  pub dummy_password_hash : String

-- What a login raises: an error of its own, or what the database raises and no code catches.
pub data LoginFault : Type 0 where
  refused : LoginError → LoginFault
  uncaught : LoginFault

abbrev pub fault : LoginErrorCode → String → ℕ → LoginFault
fault code message status_code =
    refused (record { code = code; message = message; status_code = status_code })

abbrev pub invalid_credentials : LoginFault
invalid_credentials =
    fault LoginErrorCode.invalid_credentials "The supplied credentials could not be verified." 401

abbrev pub locked_error : LoginFault
locked_error =
    fault LoginErrorCode.temporarily_locked
      "Login is temporarily unavailable. Please wait and try again." 429

abbrev pub workflow_error : LoginFault
workflow_error =
    fault LoginErrorCode.workflow_invalid "This login workflow is invalid or expired." 400

-- The risk of a login from a device: its score, and the decision.
abbrev pub score : DeviceSignals → ℕ
score signals =
    (if signals.known then 0 else 50)
    + (if signals.trusted then 0 else 20)
    + (if signals.ip_changed then 30 else 0)

abbrev pub risk_of : DeviceSignals → RiskLevel
risk_of signals =
    if leb 50 (score signals)
    then RiskLevel.high
    else if leb 25 (score signals)
    then RiskLevel.medium
    else RiskLevel.low

abbrev pub decision_of : RiskLevel → LoginDecisionType
decision_of RiskLevel.low = LoginDecisionType.session_ready
decision_of _ = LoginDecisionType.mfa_required

abbrev pub event_of : LoginDecisionType → String
event_of LoginDecisionType.collision_proof_required = "OIDC_ACCOUNT_COLLISION_DETECTED"
event_of _ = "PRIMARY_LOGIN_VERIFIED"

abbrev pub outcome_of : LoginDecisionType → String
outcome_of LoginDecisionType.collision_proof_required = "denied"
outcome_of _ = "success"

-- `payload.update(context)`: the names of a context are new ones.
abbrev pub with_context : Members → Members → Members
with_context context end = context
with_context context (member k v ms) = member k v (with_context context ms)

abbrev pub hash_of_identity : Option LoginIdentity → Option String
hash_of_identity none = none
hash_of_identity (some i) = present i.password_hash

-- The identity that a password may log in, none otherwise.
abbrev pub accepted_identity : Bool → Option LoginIdentity → Option LoginIdentity
accepted_identity valid none = none
accepted_identity valid (some i) =
    if valid && i.verified && state_is_active i.state then some i else none

abbrev pub user_of : Option LoginIdentity → Option ℕ
user_of none = none
user_of (some i) = some i.user_id

abbrev pub listed_methods : Option Json → List String
listed_methods (some (texts ms)) = ms
listed_methods _ = []
