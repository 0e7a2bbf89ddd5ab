-- ===== src/Control/MfaLaws/Lock.antt =====
-- Three wrong one-time passwords lock their factor.
use auth_core.Prelude.{
  ℕ, ◌+◌, ◌*◌, ◌≤◌, ◌<◌, ◌≡◌, refl, String, true, false, Option, none, some, leb, Bool-cases, arith,
  Option-cases, inl, inr,
}
use auth_core.Prelude.Action.{ok, raised}
use auth_core.Redis.{second, integer}
use auth_core.Redis.Laws.{entry-set_self}
use auth_core.Entity.Json.{Members, get}
use auth_core.Entity.Mfa.{totp}
use auth_core.Security.{
  State, increment_rate_limit, get_mfa_challenge, lock_factor, factor_is_locked,
}
use auth_core.Security.Keys
use auth_core.Security.Keys.{of_uuid}
use auth_core.Persistence.Tables.{Database, StoredSecret}
use auth_core.Control.Session.{is_text, uuid_of}
use auth_core.Control.Mfa.{
  MfaControl, W, CompletionDraw, code_error, locked_error, method_of, verify_totp, verify_challenge,
  record_factor_failure, check_totp, usable, open_secret,
}
use auth_core.Providers.Totp
use auth_core.Persistence.LoginRepository.{is_active_factor}
use auth_core.Persistence.MfaRepository.{MfaFactor, factor}

module _ (control : MfaControl) where
  check_totp-redis :
      (now user_id : ℕ) (code : String) (found : Option (MfaFactor × StoredSecret)) (w : W control)
      → (check_totp control now user_id code found w).1.redis ≡ w.redis
  check_totp-redis now u code none w = refl
  check_totp-redis now u code (some (f, stored)) w =
      elim (Option-cases (open_secret control u stored)) [
        | inl closed ↦ rw closed refl
        | inr (secret, opened) ↦
            elim (Option-cases (Totp.verify control.pyotp now secret code f.last_totp_step)) [
              | inl rejected ↦ rw (opened, rejected) refl
              | inr (step, taken) ↦ rw (opened, taken) refl
            ]
      ]

  -- A verification reads Redis only.
  verify_totp-redis :
      (now user_id factor_id : ℕ) (code : String) (w : W control)
      → (verify_totp control now user_id factor_id code w).1.redis ≡ w.redis
  unfolding verify_totp
  verify_totp-redis now u f code w =
      elim (Bool-cases (factor_is_locked control.redis now f w.redis)) [
        | inl locked ↦ rw locked refl
        | inr open_ ↦
            rw open_
              (check_totp-redis now u code (usable is_active_factor (factor u f w.database)) w)
      ]

  locked_for :
      (now later factor_id : ℕ) (s : State control.redis)
      → now ≤ later
      → later < now + 900 * second
      → factor_is_locked control.redis later factor_id (lock_factor control.redis now factor_id s)
        ≡ true
  unfolding factor_is_locked lock_factor
  locked_for now later f s le lt =
      let k = (Keys.factor_lock control.redis.opaque f).name in
      let s' = control.redis.client.set now k (integer 1) 900 s in
      rw (control.redis.client.entry_later now later k s' le, entry-set_self) (ground arith)

  locked_out :
      (later user_id factor_id : ℕ) (code : String) (database : Database) (s : State control.redis)
      → factor_is_locked control.redis later factor_id s ≡ true
      → (verify_totp control later user_id factor_id code
          (record { redis = s; database = database })).0
        ≡ raised locked_error
  unfolding verify_totp
  locked_out later u f code database s locked = rw locked refl

  record_factor_failure-locks :
      (now factor_id : ℕ) (w : W control)
      → 3
        ≤ (increment_rate_limit control.redis now "mfa_factor_failure"
            (of_uuid factor_id)
            900
            w.redis).0
      → record_factor_failure control now factor_id w ≡ (
        ok tt,
        record w {
          redis =
              lock_factor control.redis now factor_id
                (increment_rate_limit control.redis now "mfa_factor_failure"
                  (of_uuid factor_id)
                  900
                  w.redis).1;
        },
      )
  unfolding record_factor_failure
  record_factor_failure-locks now f w enough =
      let hit : leb 3
            (increment_rate_limit control.redis now "mfa_factor_failure" (of_uuid f) 900 w.redis).0
          ≡ true =
        ground arith in
      rw hit refl

  -- Let a challenge for TOTP be verified with a wrong code, as the third failure of its factor in a
  -- window or later. Then the code is refused, and for 900 seconds every verification of that factor is
  -- refused as locked, with Redis as the failure left it, and whatever the code and the database.
  pub third_failure_locks :
      (now later user_id factor_id correlation_id : ℕ) (challenge_token code code' : String)
      (draw : CompletionDraw) (payload : Members) (w : W control) (database : Database)
      → get_mfa_challenge control.redis now challenge_token w.redis ≡ some payload
      → is_text "verify" (get "purpose" payload) ≡ true
      → uuid_of (get "user_id" payload) ≡ some user_id
      → method_of payload ≡ some totp
      → uuid_of (get "factor_id" payload) ≡ some factor_id
      → (verify_totp control now user_id factor_id code w).0 ≡ ok false
      → 3
        ≤ (increment_rate_limit control.redis now "mfa_factor_failure"
            (of_uuid factor_id)
            900
            w.redis).0
      → now ≤ later
      → later < now + 900 * second
      → ((verify_challenge control now challenge_token code correlation_id draw w).0
          ≡ raised code_error)
        × ((verify_totp control later user_id factor_id code' (record {
          redis = (verify_challenge control now challenge_token code correlation_id draw w).1.redis;
          database = database;
        })).0
            ≡ raised locked_error)
  unfolding verify_challenge
  third_failure_locks now later u f corr t code code' draw payload w database found purpose owner
        method id wrong enough le lt =
      let w1 = (verify_totp control now u f code w).1 in
      let same = verify_totp-redis now u f code w in
      let failed : verify_totp control now u f code w ≡ (ok false, w1) = λ i. (wrong i, w1) in
      let counted = record_factor_failure-locks now f w1 (rw same enough) in
      let s' =
        (increment_rate_limit control.redis now "mfa_factor_failure" (of_uuid f) 900 w1.redis).1 in
      rw (found, purpose, owner, method, id, failed, id, counted)
        (
          refl,
          locked_out later u f code' database (lock_factor control.redis now f s')
              (locked_for now later f s' le lt),
        )
