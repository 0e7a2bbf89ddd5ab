-- ===== src/Control/Session/Setup.antt =====
-- control/session.py: what `SessionControl` holds, the state that it works on, and its helpers. A
-- workflow runs at one instant, `now`, and the values that it draws at random are its arguments.
use auth_core.Prelude.{ℕ, String, List, [], ◌∷◌}
use auth_core.Prelude.Action.{Action, modify, call}
use auth_core.Entity.Session.{SessionError, workflow_invalid, token_invalid, RevocationResult}
use auth_core.Entity.Json.{Members}
use auth_core.Persistence.Tables.{Database}
use auth_core.Persistence.SessionRepository
use auth_core.Security.{RedisSecurityStore, State, revoke_access_token, revoke_family}
use auth_core.Tokens.{TokenProvider}

abbrev pub access_ttl_seconds : ℕ
access_ttl_seconds = 900

abbrev pub idle_timeout_seconds : ℕ
idle_timeout_seconds = 900

abbrev pub session_absolute_seconds : ℕ
session_absolute_seconds = 86_400

abbrev pub refresh_family_seconds : ℕ
refresh_family_seconds = 2_592_000

-- The collaborators of the class; the two digests are keyed by its peppers.
pub record SessionControl : Type 1 where
  pub redis : RedisSecurityStore
  pub tokens : TokenProvider
  pub token_hash : String → ℕ
  pub fingerprint_hash : String → ℕ

-- Redis and PostgreSQL.
pub record World (R : Type 0) : Type 0 where
  pub redis : R
  pub database : Database

abbrev pub invalid_workflow : SessionError
invalid_workflow = record {
  code = workflow_invalid;
  message = "This session workflow is invalid or expired.";
  status_code = 400;
}

abbrev pub invalid_session : SessionError
invalid_session = record {
  code = token_invalid;
  message = "The session token is invalid or expired.";
  status_code = 401;
}

module _ (control : SessionControl) where
  abbrev pub W : Type 0
  W = World (State control.redis)

  abbrev pub Act : Type 0 → Type 0
  Act A = Action SessionError W A

  abbrev pub Token : Type 0
  Token = control.tokens.jwt.Token

  -- A write to Redis, a transaction that writes, and one that returns something as well.
  abbrev pub in_redis : (State control.redis → State control.redis) → Act Unit
  in_redis f = modify (λ w. record w { redis = f w.redis })

  abbrev pub in_database : (Database → Database) → Act Unit
  in_database f = modify (λ w. record w { database = f w.database })

  abbrev pub transaction : {A : Type 0} → (Database → A × Database) → Act A
  transaction f = call λ w. let (a, db) = f w.database in (a, record w { database = db })

  abbrev pub from_redis : {A : Type 0} → (State control.redis → A × State control.redis) → Act A
  from_redis f = call λ w. let (a, s) = f w.redis in (a, record w { redis = s })

  abbrev pub audit : String → String → ℕ → ℕ → Members → Act Unit
  audit event_type outcome correlation_id user_id metadata =
      in_database (SessionRepository.audit event_type outcome correlation_id user_id metadata)

  -- `_apply_revocation`
  unfoldable pub mark_revoked : ℕ → RevocationResult → State control.redis → State control.redis
  mark_revoked now value s =
      revoke_family control.redis now value.family_id refresh_family_seconds
        (revoke_access_token control.redis now value.access_jti access_ttl_seconds s)

  unfoldable pub mark_all_revoked :
      ℕ → List RevocationResult → State control.redis → State control.redis
  mark_all_revoked now [] s = s
  mark_all_revoked now (v ∷ vs) s = mark_all_revoked now vs (mark_revoked now v s)
