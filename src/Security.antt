-- ===== src/Security.antt =====
-- infrastructure/redis_security.py: what the service keeps in Redis, one operation a function of the
-- time and the server's state. The key factory is `Keys`; the Lua scripts are in `Scripts`.
pub mod Keys
pub mod Scripts
pub mod Otp
pub mod Limits
use auth_core.Prelude.{ℕ, ◌*◌, ◌/◌, max, String, Bool, Option, none, some, is_some}
use auth_core.Entity.Json.{Members}
use auth_core.Redis.{
  Redis, KeyName, Value, integer, document, Fields, Entry, second, fields_of, counter_value,
}
use auth_core.Security.Keys.{Subject, RedisKey}
use auth_core.Security.Keys
use auth_core.Security.Scripts.{OtpReply, verify_otp_script, rate_limit_script}

-- The client, and the key factory's keyed digest.
pub record RedisSecurityStore : Type 1 where
  pub client : Redis
  pub opaque : Subject → ℕ

-- `json.loads(value)` of a stored document.
abbrev loaded : Option Entry → Option Members
loaded none = none
loaded (some e) = elim e.value [ document m ↦ some m | _ ↦ none ]

-- `datetime.fromtimestamp(int(value), UTC)`
abbrev pub instant_of : Option Entry → Option ℕ
instant_of none = none
instant_of (some e) = some (counter_value e.value * second)

-- `int(moment.timestamp())`
abbrev pub timestamp : ℕ → ℕ
timestamp moment = moment / second

module _ (store : RedisSecurityStore) where
  open store use {client, opaque}

  abbrev pub State : Type 0
  State = client.State

  -- `client.set(key.name, value, ex=key.ttl_seconds)`
  abbrev write : ℕ → RedisKey → Value → State → State
  write now key v = client.set now key.name v key.ttl_seconds

  abbrev held : ℕ → RedisKey → State → Option Entry
  held now key s = client.entry now key.name s

  unfoldable pub store_otp_hash : ℕ → ℕ → String → ℕ → State → State
  store_otp_hash now user_id purpose otp_hash s =
      let key = Keys.otp opaque user_id purpose in
      client.expire now key.name key.ttl_seconds
        (client.hset now key.name (record { hash = some otp_hash; attempts = 0 }) s)

  unfoldable pub record_otp_failure : ℕ → ℕ → String → State → ℕ × State
  record_otp_failure now user_id purpose s =
      let key = Keys.otp opaque user_id purpose in
      let s' = client.hincrby_attempts now key.name s in
      ((fields_of (client.entry now key.name s')).attempts, s')

  unfoldable pub get_otp_hash : ℕ → ℕ → String → State → Option ℕ
  get_otp_hash now user_id purpose s =
      (fields_of (held now (Keys.otp opaque user_id purpose) s)).hash

  unfoldable pub consume_otp : ℕ → String → State → State
  consume_otp user_id purpose s = client.delete (Keys.otp opaque user_id purpose).name s

  unfoldable pub verify_and_consume_otp : ℕ → ℕ → String → ℕ → ℕ → State → OtpReply × State
  verify_and_consume_otp now user_id purpose candidate_hash max_attempts s =
      verify_otp_script client now (Keys.otp opaque user_id purpose).name candidate_hash
        max_attempts s

  unfoldable pub increment_rate_limit : ℕ → String → Subject → ℕ → State → ℕ × State
  increment_rate_limit now route subject window_seconds s =
      let key = Keys.rate_limit opaque route subject window_seconds in
      rate_limit_script client now key.name key.ttl_seconds s

  unfoldable pub reset_rate_limit : String → Subject → ℕ → State → State
  reset_rate_limit route subject window_seconds s =
      client.delete (Keys.rate_limit opaque route subject window_seconds).name s

  unfoldable pub lock_login : ℕ → String → State → State
  lock_login now subject s = write now (Keys.login_lock opaque subject) (integer 1) s

  unfoldable pub login_is_locked : ℕ → String → State → Bool
  login_is_locked now subject s = is_some (held now (Keys.login_lock opaque subject) s)

  unfoldable pub store_login_workflow : ℕ → String → Members → State → State
  store_login_workflow now token payload s =
      write now (Keys.login_workflow opaque token) (document payload) s

  unfoldable pub get_login_workflow : ℕ → String → State → Option Members
  get_login_workflow now token s = loaded (held now (Keys.login_workflow opaque token) s)

  -- GETDEL
  unfoldable pub consume_login_workflow : ℕ → String → State → Option Members × State
  consume_login_workflow now token s =
      let key = Keys.login_workflow opaque token in
      (loaded (held now key s), client.delete key.name s)

  unfoldable pub store_mfa_challenge : ℕ → String → Members → State → State
  store_mfa_challenge now token payload s =
      write now (Keys.mfa_challenge opaque token) (document payload) s

  unfoldable pub get_mfa_challenge : ℕ → String → State → Option Members
  get_mfa_challenge now token s = loaded (held now (Keys.mfa_challenge opaque token) s)

  unfoldable pub consume_mfa_challenge : ℕ → String → State → Option Members × State
  consume_mfa_challenge now token s =
      let key = Keys.mfa_challenge opaque token in
      (loaded (held now key s), client.delete key.name s)

  unfoldable pub store_webauthn_challenge : ℕ → String → Members → State → State
  store_webauthn_challenge now token payload s =
      write now (Keys.webauthn_challenge opaque token) (document payload) s

  unfoldable pub consume_webauthn_challenge : ℕ → String → State → Option Members × State
  consume_webauthn_challenge now token s =
      let key = Keys.webauthn_challenge opaque token in
      (loaded (held now key s), client.delete key.name s)

  unfoldable pub lock_factor : ℕ → ℕ → State → State
  lock_factor now factor_id s = write now (Keys.factor_lock opaque factor_id) (integer 1) s

  unfoldable pub factor_is_locked : ℕ → ℕ → State → Bool
  factor_is_locked now factor_id s = is_some (held now (Keys.factor_lock opaque factor_id) s)

  unfoldable pub store_oidc_workflow : ℕ → String → Members → State → State
  store_oidc_workflow now state payload s =
      write now (Keys.oidc_workflow opaque state) (document payload) s

  unfoldable pub consume_oidc_workflow : ℕ → String → State → Option Members × State
  consume_oidc_workflow now state s =
      let key = Keys.oidc_workflow opaque state in
      (loaded (held now key s), client.delete key.name s)

  unfoldable pub revoke_access_token : ℕ → ℕ → ℕ → State → State
  revoke_access_token now jti remaining_lifetime s =
      write now (Keys.access_revocation opaque jti remaining_lifetime) (integer 1) s

  unfoldable pub access_token_is_revoked : ℕ → ℕ → State → Bool
  access_token_is_revoked now jti s = is_some (held now (Keys.access_revocation opaque jti 1) s)

  unfoldable pub revoke_family : ℕ → ℕ → ℕ → State → State
  revoke_family now family_id remaining_lifetime s =
      write now (Keys.family_revocation opaque family_id (max 1 remaining_lifetime)) (integer 1) s

  unfoldable pub family_is_revoked : ℕ → ℕ → State → Bool
  family_is_revoked now family_id s =
      is_some (held now (Keys.family_revocation opaque family_id 1) s)

  unfoldable pub revoke_user : ℕ → ℕ → ℕ → State → State
  revoke_user now user_id issued_before s =
      write now (Keys.user_revocation opaque user_id) (integer (timestamp issued_before)) s

  unfoldable pub user_revoked_at : ℕ → ℕ → State → Option ℕ
  user_revoked_at now user_id s = instant_of (held now (Keys.user_revocation opaque user_id) s)

  unfoldable pub revoke_organization : ℕ → ℕ → ℕ → ℕ → State → State
  revoke_organization now user_id org_id issued_before s =
      write now (Keys.organization_revocation opaque user_id org_id)
        (integer (timestamp issued_before)) s

  unfoldable pub organization_revoked_at : ℕ → ℕ → ℕ → State → Option ℕ
  organization_revoked_at now user_id org_id s =
      instant_of (held now (Keys.organization_revocation opaque user_id org_id) s)

  unfoldable pub clear_organization_revocation : ℕ → ℕ → State → State
  clear_organization_revocation user_id org_id s =
      client.delete (Keys.organization_revocation opaque user_id org_id).name s
