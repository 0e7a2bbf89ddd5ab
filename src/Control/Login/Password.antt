-- ===== src/Control/Login/Password.antt =====
-- control/login.py: logging in with a password, and `fallback_options`.
use auth_core.Prelude.{ℕ, String, Bool, true, false, ◌||◌, Option, none, some, List, leb}
use auth_core.Prelude.Action.{pure, raise, raise_if, require, gets, modify, call, ◌>>=◌, ◌>>◌}
use auth_core.Entity.Json.{end, get}
use auth_core.Entity.User.{normalize_email}
use auth_core.Entity.Login.{LoginIdentity, LoginDecision}
use auth_core.Security.{
  State, increment_rate_limit, reset_rate_limit, lock_login, login_is_locked, get_login_workflow,
}
use auth_core.Security.Keys.{of_text}
use auth_core.Persistence.LoginRepository.{present, password_identity, update_password_hash}
use auth_core.Control.Login.Setup.{
  password_attempt_limit, password_attempt_window, LoginControl, invalid_credentials, locked_error,
  workflow_error, hash_of_identity, accepted_identity, user_of, listed_methods,
}
use auth_core.Control.Login.Decision.{W, Act, in_redis, audit, primary_decision}

module _ (control : LoginControl) where
  abbrev count_for_ip : ℕ → Option String → W control → ℕ × W control
  count_for_ip now none w = (0, w)
  count_for_ip now (some ip) w =
      let (n, s) =
        increment_rate_limit control.redis now "login_password_ip" (of_text ip)
          password_attempt_window w.redis in
      (n, record w { redis = s })

  abbrev count_for_email : ℕ → String → W control → ℕ × W control
  count_for_email now email w =
      let (n, s) =
        increment_rate_limit control.redis now "login_password" (of_text email)
          password_attempt_window w.redis in
      (n, record w { redis = s })

  abbrev lock_if : ℕ → Bool → String → W control → W control
  lock_if now true subject w = in_redis control (lock_login control.redis now subject) w
  lock_if now false subject w = w

  abbrev lock_ip_if : ℕ → Bool → Option String → W control → W control
  lock_ip_if now b none w = w
  lock_ip_if now b (some ip) w = lock_if now b ip w

  -- `_record_password_failure`
  unfoldable pub record_password_failure :
      ℕ → String → Option String → Option LoginIdentity → ℕ → Act control Unit
  record_password_failure now email ip_address identity correlation_id = do
    email_count ← call (count_for_email now email)
    ip_count ← call (count_for_ip now (present ip_address))
    modify (lock_if now (leb password_attempt_limit email_count) email)
    modify (lock_ip_if now (leb password_attempt_limit ip_count) (present ip_address))
    audit control "PASSWORD_LOGIN_FAILED" "failure" correlation_id (user_of identity) end

  abbrev ip_locked : ℕ → Option String → State control.redis → Bool
  ip_locked now none s = false
  ip_locked now (some ip) s = login_is_locked control.redis now ip s

  -- The condition of `_check_login_lock`
  unfoldable pub login_locked : ℕ → String → Option String → State control.redis → Bool
  login_locked now email ip_address s =
      login_is_locked control.redis now email s || ip_locked now (present ip_address) s

  abbrev pub hash_or_dummy : Option String → String
  hash_or_dummy none = control.dummy_password_hash
  hash_or_dummy (some h) = h

  abbrev rehash_if : Bool → ℕ → ℕ → String → W control → W control
  rehash_if true user_id salt password w = record w {
    database = update_password_hash user_id (control.password_hasher.hash salt password) w.database;
  }
  rehash_if false user_id salt password w = w

  -- What follows the check of the password, by the identity that it accepts.
  unfoldable pub decide_password :
      ℕ
      → String
      → String
      → String
      → Option String
      → ℕ
      → ℕ
      → String
      → String
      → Option LoginIdentity
      → Option LoginIdentity
      → Act control LoginDecision
  unfolding record_password_failure primary_decision
  decide_password now email password fingerprint ip_address event_id salt token password_hash
        identity none =
      do record_password_failure now email ip_address identity event_id; raise invalid_credentials
  decide_password now email password fingerprint ip_address event_id salt token password_hash
        identity (some i) =
      do
        modify (
            in_redis control (
              reset_rate_limit control.redis "login_password" (of_text email)
                password_attempt_window))
        modify
            (rehash_if (control.password_hasher.needs_rehash password_hash) i.user_id salt password)
        primary_decision control now i fingerprint ip_address "password" event_id token

  unfoldable pub login_password :
      ℕ → String → String → String → Option String → ℕ → ℕ → String → Act control LoginDecision
  unfolding decide_password login_locked
  login_password now email password fingerprint ip_address event_id salt token = do
    let normalized_email = normalize_email control.text_methods email
    locked ← gets (λ w. login_locked now normalized_email ip_address w.redis)
    raise_if locked locked_error
    identity ← gets (λ w. password_identity control.text_methods normalized_email w.database)
    let password_hash = hash_or_dummy (hash_of_identity identity)
    let valid = control.password_hasher.verify password_hash password
    decide_password now normalized_email password fingerprint ip_address event_id salt token
        password_hash identity (accepted_identity valid identity)

  unfoldable pub fallback_options : ℕ → String → Act control (List String)
  fallback_options now workflow_token = do
    found ← gets (λ w. get_login_workflow control.redis now workflow_token w.redis)
    payload ← require found workflow_error
    pure (listed_methods (get "allowed_methods" payload))
