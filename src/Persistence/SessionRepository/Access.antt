-- ===== src/Persistence/SessionRepository/Access.antt =====
-- infrastructure/persistence/session_repository.py: revoking, listing, checking and scoping sessions.
use auth_core.Prelude.{
  ℕ, ◌/◌, ◌^◌, String, Bool, false, ◌&&◌, Option, none, some, List, [], ◌∷◌, ◌++◌, map, ◌==◌, ltb,
  is_none, is_some, rows_where, find_row, update_where, order_by_desc,
}
use auth_core.Entity.Session.{SessionSummary, RevocationResult}
use auth_core.Entity.Json.{Members}
use auth_core.Persistence.Tables.{Database, RefreshTokenFamily, Session}
use auth_core.Persistence.SessionRepository.Create.{join_family, revocation}
use auth_core.Persistence.SessionRepository.Rotate.{revoke_locked}

-- The session with an id, if it is this user's.
unfoldable pub owned_row : ℕ → ℕ → Database → Option (RefreshTokenFamily × Session)
owned_row user_id session_id db =
    find_row (λ r. r.1.session_id == session_id && r.1.user_id == user_id)
      (join_family db.families db.sessions)

unfoldable pub revoke_session : ℕ → ℕ → String → ℕ → Database → Option RevocationResult × Database
revoke_session user_id session_id reason now db = elim (owned_row user_id session_id db) [
  | none ↦ (none, db)
  | some row ↦ (some (revocation row), revoke_locked now reason row db)
]

-- The `where` clause of `revoke_all`.
abbrev pub not_revoked_for : ℕ → RefreshTokenFamily × Session → Bool
not_revoked_for user_id (f, s) =
    s.user_id == user_id && is_none s.revoked_at && is_none f.revoked_at

unfoldable pub revoke_each : ℕ → String → List (RefreshTokenFamily × Session) → Database → Database
revoke_each now reason [] db = db
revoke_each now reason (r ∷ rs) db = revoke_each now reason rs (revoke_locked now reason r db)

unfoldable pub revoke_all : ℕ → String → ℕ → Database → List RevocationResult × Database
revoke_all user_id reason now db =
    let rows = rows_where (not_revoked_for user_id) (join_family db.families db.sessions) in
    (map revocation rows, revoke_each now reason rows db)

-- What `list_sessions`, `session_is_active` and `scope_session` ask of a row besides its ids.
abbrev pub is_active : ℕ → RefreshTokenFamily × Session → Bool
is_active now (f, s) =
    is_none s.revoked_at
    && ltb now s.expires_at
    && is_none f.revoked_at
    && ltb now f.absolute_expires_at

-- The first 8 of the 64 hexadecimal digits of a digest, before the ellipsis.
abbrev pub device_hint : ℕ → ℕ
device_hint digest = digest / 16 ^ 56

abbrev pub summary : RefreshTokenFamily × Session → SessionSummary
summary (f, s) = record {
  session_id = s.session_id;
  client_type = s.client_id;
  device_hint = device_hint s.device_fingerprint_hash;
  ip_address = s.ip_address;
  created_at = s.created_at;
  last_activity_at = s.last_activity_at;
  expires_at = s.expires_at;
  current = false;
}

unfoldable pub list_sessions : ℕ → ℕ → Database → List SessionSummary
list_sessions user_id now db = map summary (
    order_by_desc (λ r. r.1.last_activity_at)
      (rows_where (λ r. r.1.user_id == user_id && is_active now r)
        (join_family db.families db.sessions)))

unfoldable pub session_is_active : ℕ → ℕ → Database → Bool
session_is_active session_id now db = is_some (
    find_row (λ r. r.1.session_id == session_id && is_active now r)
      (join_family db.families db.sessions))

-- The active session with an id, if it is this user's.
unfoldable pub active_owned_row : ℕ → ℕ → ℕ → Database → Option (RefreshTokenFamily × Session)
active_owned_row user_id session_id now db =
    find_row (λ r. r.1.session_id == session_id && r.1.user_id == user_id && is_active now r)
      (join_family db.families db.sessions)

-- The writes of `scope_session`.
unfoldable pub set_scope : ℕ → ℕ → ℕ → Session → Database → Database
set_scope workspace_id access_jti now active db = record db {
  sessions =
      update_where (λ s. s.session_id == active.session_id)
        (λ s. record s {
          org_id = some workspace_id;
          access_jti = access_jti;
          last_activity_at = now;
        })
        db.sessions;
}

unfoldable pub scope_session : ℕ → ℕ → ℕ → ℕ → ℕ → Database → Option ℕ × Database
scope_session user_id session_id workspace_id access_jti now db =
    elim (active_owned_row user_id session_id now db) [
      | none ↦ (none, db)
      | some (f, active) ↦ (some active.access_jti, set_scope workspace_id access_jti now active db)
    ]

unfoldable pub audit : String → String → ℕ → ℕ → Members → Database → Database
audit event_type outcome correlation_id user_id metadata db = record db {
  audit_logs =
      db.audit_logs
      ++ record {
        actor_user_id = some user_id;
        subject_user_id = some user_id;
        event_type = event_type;
        outcome = outcome;
        correlation_id = correlation_id;
        metadata = metadata;
      }
        ∷ [];
}
