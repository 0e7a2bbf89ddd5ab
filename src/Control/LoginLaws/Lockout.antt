-- ===== src/Control/LoginLaws/Lockout.antt =====
-- The lock on an email after five failures in a window.
use auth_core.Prelude.{
  ℕ, ◌+◌, ◌*◌, ◌≤◌, ◌<◌, ◌≡◌, String, true, Option, some, arith, Option-cases, inl, inr,
}
use auth_core.Prelude.Action.{Outcome, raised}
use auth_core.Entity.User.{normalize_email}
use auth_core.Entity.Login.{LoginIdentity, LoginDecision}
use auth_core.Redis.{second, lasting, integer, KeyName}
use auth_core.Redis.Laws.{entry-set_self}
use auth_core.Security.{State, increment_rate_limit, lock_login, login_is_locked}
use auth_core.Security.Keys
use auth_core.Security.Keys.{of_text}
use auth_core.Persistence.Tables.{Database}
use auth_core.Persistence.LoginRepository.{present, password_identity}
use auth_core.Control.Login.{
  LoginControl, LoginFault, W, login_password, decide_password, login_locked,
  record_password_failure, invalid_credentials, locked_error, primary_decision, workflow_decision,
}

module _ (control : LoginControl) (now : ℕ) where
  abbrev lock_key : String → KeyName
  lock_key subject = (Keys.login_lock control.redis.opaque subject).name

  abbrev IsLocked : String → State control.redis → Type 0
  IsLocked subject s =
      control.redis.client.entry now (lock_key subject) s
      ≡ some (lasting (integer 1) (now + 900 * second))

  lock_login-IsLocked :
      (subject : String) (s : State control.redis)
      → IsLocked subject (lock_login control.redis now subject s)
  unfolding lock_login
  lock_login-IsLocked subject s = rw entry-set_self (ground arith)

  lock_login-keeps :
      (subject other : String) (s : State control.redis)
      → IsLocked subject s
      → IsLocked subject (lock_login control.redis now other s)
  unfolding lock_login
  lock_login-keeps subject other s e = ground (
    arith,
    control.redis.client.entry_set now (lock_key other) (lock_key subject) (integer 1) 900 s,
  )

  record_password_failure-IsLocked :
      (email : String) (ip : Option String) (identity : Option LoginIdentity) (event_id : ℕ)
      (w : W control)
      → 5 ≤ (increment_rate_limit control.redis now "login_password" (of_text email) 60 w.redis).0
      → IsLocked email (record_password_failure control now email ip identity event_id w).1.redis
  unfolding record_password_failure
  record_password_failure-IsLocked email ip identity event_id w enough =
      let s1 =
        (increment_rate_limit control.redis now "login_password" (of_text email) 60 w.redis).1 in
      elim (Option-cases (present ip)) [
        | inl no_ip ↦ rw (no_ip) (ground (arith, lock_login-IsLocked email s1))
        | inr (a, with_ip) ↦
            let s2 =
              (increment_rate_limit control.redis now "login_password_ip" (of_text a) 60 s1).1 in
            rw (with_ip) (
              ground (
                arith,
                lock_login-IsLocked email s2,
                lock_login-keeps email a (lock_login control.redis now email s2),
              ))
      ]

  locked_later :
      (later : ℕ) (subject : String) (s : State control.redis)
      → now ≤ later
      → later < now + 900 * second
      → IsLocked subject s
      → login_is_locked control.redis later subject s ≡ true
  unfolding login_is_locked
  locked_later later subject s le lt e =
      ground (arith, control.redis.client.entry_later now later (lock_key subject) s le)

module _ (control : LoginControl) (now : ℕ) (email password fingerprint : String)
    (ip_address : Option String) (event_id salt : ℕ) (token : String) where
  abbrev attempt : W control → Outcome LoginFault LoginDecision × W control
  attempt w = login_password control now email password fingerprint ip_address event_id salt token w

  locked_attempt :
      (w : W control)
      → login_is_locked control.redis now (normalize_email control.text_methods email) w.redis
        ≡ true
      → (attempt w).0 ≡ raised locked_error
  unfolding login_password login_locked
  locked_attempt w e = ground arith

  failed_attempt :
      (w : W control)
      → (attempt w).0 ≡ raised invalid_credentials
      → (attempt w).1
        ≡ (record_password_failure control now
            (normalize_email control.text_methods email)
            ip_address
            (password_identity control.text_methods
              (normalize_email control.text_methods email)
              w.database)
            event_id
            w).1
  unfolding login_password decide_password primary_decision workflow_decision
  failed_attempt w e = ground arith

-- Let a login with a password fail as the fifth failure for its email in a window, or later. Then for
-- 900 seconds every login with that email is refused as locked, with Redis as the failure left it, and
-- whatever the password, the address and the database.
pub fifth_failure_locks :
    (control : LoginControl) (now later : ℕ)
    (email email' password password' fingerprint fingerprint' : String) (ip ip' : Option String)
    (event_id event_id' salt salt' : ℕ) (token token' : String) (w : W control)
    (database : Database)
    → 5
      ≤ (increment_rate_limit control.redis now "login_password"
          (of_text (normalize_email control.text_methods email))
          60
          w.redis).0
    → (login_password control now email password fingerprint ip event_id salt token w).0
      ≡ raised invalid_credentials
    → normalize_email control.text_methods email' ≡ normalize_email control.text_methods email
    → now ≤ later
    → later < now + 900 * second
    → (login_password control later email' password' fingerprint' ip' event_id' salt' token'
        (record {
          redis =
              (login_password control now email password fingerprint ip event_id salt token
                w).1.redis;
          database = database;
        })).0
      ≡ raised locked_error
fifth_failure_locks control now later email email' password password' fingerprint fingerprint' ip
      ip' ev ev' salt salt' token token' w database enough failed same le lt =
    let n = normalize_email control.text_methods email in
    let identity = password_identity control.text_methods n w.database in
    let w' : W control = record {
      redis = (login_password control now email password fingerprint ip ev salt token w).1.redis;
      database = database;
    } in
    locked_attempt control later email' password' fingerprint' ip' ev' salt' token' w' (
      rw (same, failed_attempt control now email password fingerprint ip ev salt token w failed)
        (locked_later control now later n
          (record_password_failure control now n ip identity ev w).1.redis le lt
          (record_password_failure-IsLocked control now n ip identity ev w enough)))
