-- ===== src/Persistence/SessionRepository/Create.antt =====
-- infrastructure/persistence/session_repository.py: the session rows of a user, and `create_session`.
-- Each method is one transaction: a function from the tables to its result and the tables that it
-- commits. The UUIDs that a method generates are arguments.
use auth_core.Prelude.{
  ℕ, ◌+◌, ◌-◌, String, Bool, false, ◌&&◌, Option, none, some, List, [], ◌∷◌, ◌++◌, map, ◌==◌, ltb,
  is_none, length, take, rows_where, find_row, update_where, order_by,
}
use auth_core.Entity.Session.{ClientType, SessionRecord, RevocationResult, CreatedSession}
use auth_core.Entity.User.{state_is_active}
use auth_core.Persistence.Tables.{Database, RefreshTokenFamily, RefreshToken, Session}

abbrev pub max_active_sessions : ℕ
max_active_sessions = 10

abbrev pub family_of : List RefreshTokenFamily → ℕ → Option RefreshTokenFamily
family_of families id = find_row (λ f. f.family_id == id) families

unfoldable pub user_is_active : ℕ → Database → Bool
user_is_active user_id db = elim (find_row (λ u. u.user_id == user_id) db.users) [
  | none ↦ false
  | some u ↦ state_is_active u.state && is_none u.anonymized_at
]

-- `.join(..., Session.family_id == RefreshTokenFamily.family_id)`: a family's id is its primary key.
abbrev pub join_family :
    List RefreshTokenFamily → List Session → List (RefreshTokenFamily × Session)
join_family families [] = []
join_family families (s ∷ ss) =
    let rest = join_family families ss in
    elim (family_of families s.family_id) [ none ↦ rest | some f ↦ (f, s) ∷ rest ]

-- The `where` clause of the active sessions in `create_session`.
abbrev pub counts_against_cap : ℕ → ℕ → RefreshTokenFamily × Session → Bool
counts_against_cap user_id now (f, s) =
    f.user_id == user_id && is_none f.revoked_at && is_none s.revoked_at && ltb now s.expires_at

unfoldable pub active_rows : ℕ → ℕ → Database → List (RefreshTokenFamily × Session)
active_rows user_id now db =
    order_by (λ r. r.1.created_at)
      (rows_where (counts_against_cap user_id now) (join_family db.families db.sessions))

-- One round of the loop that makes room.
unfoldable pub evict : ℕ → RefreshTokenFamily × Session → Database → Database
evict now (family, existing) db = record db {
  families =
      update_where (λ f. f.family_id == family.family_id)
        (λ f. record f { revoked_at = some now; revocation_reason = some "session_cap" })
        db.families;
  sessions =
      update_where (λ s. s.session_id == existing.session_id)
        (λ s. record s { revoked_at = some now }) db.sessions;
  tokens =
      update_where (λ t. t.family_id == family.family_id) (λ t. record t { revoked_at = some now })
        db.tokens;
}

unfoldable pub evict_all : ℕ → List (RefreshTokenFamily × Session) → Database → Database
evict_all now [] db = db
evict_all now (r ∷ rs) db = evict_all now rs (evict now r db)

abbrev pub revocation : RefreshTokenFamily × Session → RevocationResult
revocation (family, s) = record {
  user_id = s.user_id;
  family_id = family.family_id;
  access_jti = s.access_jti;
}

-- The rows that `create_session` evicts: the oldest, so that one place is free below the cap.
unfoldable pub overflow_rows : ℕ → ℕ → Database → List (RefreshTokenFamily × Session)
overflow_rows user_id now db =
    let rows = active_rows user_id now db in take (length rows + 1 - max_active_sessions) rows

abbrev pub as_record : Session → SessionRecord
as_record value = record {
  session_id = value.session_id;
  family_id = value.family_id;
  user_id = value.user_id;
  access_jti = value.access_jti;
  client_type = value.client_id;
  device_fingerprint_hash = value.device_fingerprint_hash;
  ip_address = value.ip_address;
  created_at = value.created_at;
  last_activity_at = value.last_activity_at;
  expires_at = value.expires_at;
  revoked_at = value.revoked_at;
}

-- The arguments of `create_session`, and the UUIDs that it draws.
pub record NewSession : Type 0 where
  pub user_id : ℕ
  pub client_type : ClientType
  pub device_fingerprint_hash : ℕ
  pub ip_address : Option String
  pub refresh_token_hash : ℕ
  pub access_jti : ℕ
  pub family_expires_at : ℕ
  pub session_expires_at : ℕ
  pub refresh_expires_at : ℕ
  pub family_id : ℕ
  pub session_id : ℕ
  pub refresh_token_id : ℕ

abbrev pub new_family : ℕ → NewSession → RefreshTokenFamily
new_family now n = record {
  family_id = n.family_id;
  user_id = n.user_id;
  device_fingerprint_hash = n.device_fingerprint_hash;
  client_id = n.client_type;
  created_at = now;
  absolute_expires_at = n.family_expires_at;
  revoked_at = none;
  revocation_reason = none;
}

abbrev pub new_session : ℕ → NewSession → Session
new_session now n = record {
  session_id = n.session_id;
  family_id = n.family_id;
  user_id = n.user_id;
  org_id = none;
  access_jti = n.access_jti;
  client_id = n.client_type;
  device_fingerprint_hash = n.device_fingerprint_hash;
  ip_address = n.ip_address;
  created_at = now;
  last_activity_at = now;
  expires_at = n.session_expires_at;
  revoked_at = none;
}

abbrev pub new_refresh : ℕ → NewSession → RefreshToken
new_refresh now n = record {
  refresh_token_id = n.refresh_token_id;
  family_id = n.family_id;
  token_hash = n.refresh_token_hash;
  generation = 0;
  issued_at = now;
  used_at = none;
  revoked_at = none;
  expires_at = n.refresh_expires_at;
}

abbrev pub add_session : ℕ → NewSession → Database → Database
add_session now n db = record db {
  families = db.families ++ new_family now n ∷ [];
  sessions = db.sessions ++ new_session now n ∷ [];
  tokens = db.tokens ++ new_refresh now n ∷ [];
}

unfoldable pub create_session : ℕ → NewSession → Database → CreatedSession × Database
create_session now n db =
    let rows = overflow_rows n.user_id now db in
    (
      record {
        created = as_record (new_session now n);
        evicted = map (λ r. record (revocation r) { user_id = n.user_id }) rows;
      },
      add_session now n (evict_all now rows db),
    )
