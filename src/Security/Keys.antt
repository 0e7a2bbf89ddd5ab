-- ===== src/Security/Keys.antt =====
-- SecurityKeyFactory of infrastructure/redis_security.py. A key's name is its f-string: the literal
-- parts, with a star at each place, and the digests that fill the places.
use auth_core.Prelude.{ℕ, String, List, [], ◌∷◌}
use auth_core.Redis.{KeyName}

abbrev pub otp_ttl_seconds : ℕ
otp_ttl_seconds = 180

abbrev pub mfa_challenge_ttl_seconds : ℕ
mfa_challenge_ttl_seconds = 300

abbrev pub webauthn_challenge_ttl_seconds : ℕ
webauthn_challenge_ttl_seconds = 300

abbrev pub factor_lock_ttl_seconds : ℕ
factor_lock_ttl_seconds = 900

abbrev pub user_revocation_ttl_seconds : ℕ
user_revocation_ttl_seconds = 2_592_000

abbrev pub risk_ttl_seconds : ℕ
risk_ttl_seconds = 2_592_000

abbrev pub login_lock_ttl_seconds : ℕ
login_lock_ttl_seconds = 900

abbrev pub login_workflow_ttl_seconds : ℕ
login_workflow_ttl_seconds = 300

abbrev pub oidc_workflow_ttl_seconds : ℕ
oidc_workflow_ttl_seconds = 300

pub record RedisKey : Type 0 where
  pub name : KeyName
  pub ttl_seconds : ℕ

-- What a key is made of: `str(value)` of a text or a UUID.
pub data Subject : Type 0 where
  of_text : String → Subject
  of_uuid : ℕ → Subject

abbrev named : String → List ℕ → ℕ → RedisKey
named template digests ttl = record {
  name = record { template = template; digests = digests };
  ttl_seconds = ttl;
}

-- `_opaque` is a keyed digest, the first 32 hexadecimal digits of an HMAC, read as a number.
module _ (opaque : Subject → ℕ) where
  abbrev pub otp : ℕ → String → RedisKey
  otp user_id purpose =
      named "auth:otp:*:*" (opaque (of_uuid user_id) ∷ opaque (of_text purpose) ∷ [])
        otp_ttl_seconds

  abbrev pub mfa_challenge : String → RedisKey
  mfa_challenge challenge_id =
      named "auth:mfa-challenge:*" (opaque (of_text challenge_id) ∷ []) mfa_challenge_ttl_seconds

  abbrev pub webauthn_challenge : String → RedisKey
  webauthn_challenge challenge_id =
      named "auth:webauthn:*" (opaque (of_text challenge_id) ∷ []) webauthn_challenge_ttl_seconds

  abbrev pub rate_limit : String → Subject → ℕ → RedisKey
  rate_limit route subject window_seconds =
      named "auth:rate:*:*" (opaque (of_text route) ∷ opaque subject ∷ []) window_seconds

  abbrev pub factor_lock : ℕ → RedisKey
  factor_lock factor_id =
      named "auth:lock:mfa:*" (opaque (of_uuid factor_id) ∷ []) factor_lock_ttl_seconds

  abbrev pub access_revocation : ℕ → ℕ → RedisKey
  access_revocation jti remaining_lifetime =
      named "auth:revocation:jti:*" (opaque (of_uuid jti) ∷ []) remaining_lifetime

  abbrev pub user_revocation : ℕ → RedisKey
  user_revocation user_id =
      named "auth:revocation:user:*" (opaque (of_uuid user_id) ∷ []) user_revocation_ttl_seconds

  abbrev pub family_revocation : ℕ → ℕ → RedisKey
  family_revocation family_id remaining_lifetime =
      named "auth:revocation:family:*" (opaque (of_uuid family_id) ∷ []) remaining_lifetime

  abbrev pub organization_revocation : ℕ → ℕ → RedisKey
  organization_revocation user_id org_id =
      named "auth:revocation:org:*:*" (opaque (of_uuid user_id) ∷ opaque (of_uuid org_id) ∷ [])
        user_revocation_ttl_seconds

  abbrev pub risk : ℕ → String → RedisKey
  risk user_id fingerprint =
      named "auth:risk:*:*" (opaque (of_uuid user_id) ∷ opaque (of_text fingerprint) ∷ [])
        risk_ttl_seconds

  abbrev pub login_lock : String → RedisKey
  login_lock subject =
      named "auth:lock:login:*" (opaque (of_text subject) ∷ []) login_lock_ttl_seconds

  abbrev pub login_workflow : String → RedisKey
  login_workflow token =
      named "auth:login-workflow:*" (opaque (of_text token) ∷ []) login_workflow_ttl_seconds

  abbrev pub oidc_workflow : String → RedisKey
  oidc_workflow state = named "auth:oidc:*" (opaque (of_text state) ∷ []) oidc_workflow_ttl_seconds
