-- ===== src/Persistence/SessionLaws/Run.antt =====
-- Runs of the session repository: any transactions, in any order, with any arguments; and what has
-- to be shown of each write for a property to hold along every run.
use auth_core.Prelude.{
  ℕ, String, ◌≡◌, false, some, List, [], ◌∷◌, ◌==◌, is_some, rows_where, Option-cases, Bool-cases,
  inl, inr,
}
use auth_core.Prelude.Rows.{Every, Every-update_where}
use auth_core.Entity.Json.{Members}
use auth_core.Persistence.Tables.{Database, RefreshTokenFamily, RefreshToken, Session}
use auth_core.Persistence.SessionRepository.{
  NewSession, evict, evict_all, overflow_rows, add_session, create_session, Rotation, token_row,
  any_revoked, any_expired, other_client, replace_token, rotate_row, rotate_refresh_token,
  revoke_locked, owned_row, revoke_session, not_revoked_for, join_family, revoke_each, revoke_all,
  active_owned_row, set_scope, scope_session, audit,
}

abbrev pub Row : Type 0
Row = RefreshTokenFamily × Session

abbrev pub TokenRow : Type 0
TokenRow = RefreshToken × RefreshTokenFamily × Session

-- The ids that `create_session` draws are in no row, as `uuid4` promises in practice.
pub record IsNew (n : NewSession) (db : Database) : Type 0 where
  pub no_session : Every (λ s. (s.session_id == n.session_id) ≡ false) db.sessions
  pub no_session_of_family : Every (λ s. (s.family_id == n.family_id) ≡ false) db.sessions
  pub no_token_of_family : Every (λ t. (t.family_id == n.family_id) ≡ false) db.tokens

-- One transaction that writes.
pub data Step : Database → Database → Type 0 where
  creates :
      (now : ℕ) (n : NewSession) (db : Database) → IsNew n db → Step db (create_session now n db).1
  rotates : (now : ℕ) (r : Rotation) (db : Database) → Step db (rotate_refresh_token now r db).1
  revokes :
      (user_id session_id : ℕ) (reason : String) (now : ℕ) (db : Database)
      → Step db (revoke_session user_id session_id reason now db).1
  revokes_all :
      (user_id : ℕ) (reason : String) (now : ℕ) (db : Database)
      → Step db (revoke_all user_id reason now db).1
  scopes :
      (user_id session_id workspace_id access_jti now : ℕ) (db : Database)
      → Step db (scope_session user_id session_id workspace_id access_jti now db).1
  audits :
      (event_type outcome : String) (correlation_id user_id : ℕ) (metadata : Members)
      (db : Database)
      → Step db (audit event_type outcome correlation_id user_id metadata db)

pub data Reach (start : Database) : Database → Type 0 where
  here : Reach start start
  next : {db db' : Database} → Reach start db → Step db db' → Reach start db'

-- The writes that transactions are made of keep `P`.
pub record IsKept (P : Database → Type 0) : Type 0 where
  pub by_evict : (now : ℕ) (r : Row) (db : Database) → P db → P (evict now r db)
  pub by_add :
      (now : ℕ) (n : NewSession) (db : Database) → IsNew n db → P db → P (add_session now n db)
  pub by_lock :
      (now : ℕ) (reason : String) (r : Row) (db : Database)
      → P db
      → P (revoke_locked now reason r db)
  pub by_replace :
      (now : ℕ) (r : Rotation) (t : RefreshToken) (f : RefreshTokenFamily) (s : Session)
      (db : Database)
      → token_row r.token_hash db ≡ some (t, f, s)
      → is_some t.used_at ≡ false
      → any_revoked t f s ≡ false
      → P db
      → P (replace_token now r (t, f, s) db)
  pub by_scope :
      (workspace_id access_jti now : ℕ) (s : Session) (db : Database)
      → P db
      → P (set_scope workspace_id access_jti now s db)
  pub by_audit :
      (event_type outcome : String) (correlation_id user_id : ℕ) (metadata : Members)
      (db : Database)
      → P db
      → P (audit event_type outcome correlation_id user_id metadata db)

evict-IsNew :
    (n : NewSession) (now : ℕ) (r : Row) (db : Database) → IsNew n db → IsNew n (evict now r db)
unfolding evict
evict-IsNew n now (f, s) db new = record {
  no_session =
      Every-update_where (λ x. (x.session_id == n.session_id) ≡ false)
        (λ x. x.session_id == s.session_id) (λ x. record x { revoked_at = some now }) (λ x p. p)
        db.sessions new.no_session;
  no_session_of_family =
      Every-update_where (λ x. (x.family_id == n.family_id) ≡ false)
        (λ x. x.session_id == s.session_id) (λ x. record x { revoked_at = some now }) (λ x p. p)
        db.sessions new.no_session_of_family;
  no_token_of_family =
      Every-update_where (λ x. (x.family_id == n.family_id) ≡ false)
        (λ x. x.family_id == f.family_id) (λ x. record x { revoked_at = some now }) (λ x p. p)
        db.tokens new.no_token_of_family;
}

pub evict_all-IsNew :
    (n : NewSession) (now : ℕ) (rs : List Row) (db : Database)
    → IsNew n db
    → IsNew n (evict_all now rs db)
unfolding evict_all
evict_all-IsNew n now [] db new = new
evict_all-IsNew n now (r ∷ rs) db new =
    evict_all-IsNew n now rs (evict now r db) (evict-IsNew n now r db new)

module _ (P : Database → Type 0) (kept : IsKept P) where
  evict_all-kept : (now : ℕ) (rs : List Row) (db : Database) → P db → P (evict_all now rs db)
  unfolding evict_all
  evict_all-kept now [] db p = p
  evict_all-kept now (r ∷ rs) db p =
      evict_all-kept now rs (evict now r db) (kept.by_evict now r db p)

  revoke_each-kept :
      (now : ℕ) (reason : String) (rs : List Row) (db : Database)
      → P db
      → P (revoke_each now reason rs db)
  unfolding revoke_each
  revoke_each-kept now reason [] db p = p
  revoke_each-kept now reason (r ∷ rs) db p =
      revoke_each-kept now reason rs (revoke_locked now reason r db)
        (kept.by_lock now reason r db p)

  rotate_row-kept :
      (now : ℕ) (r : Rotation) (row : TokenRow) (db : Database)
      → token_row r.token_hash db ≡ some row
      → P db
      → P (rotate_row now r row db).1
  unfolding rotate_row
  rotate_row-kept now r (t, f, s) db found p = elim (Bool-cases (is_some t.used_at)) [
    | inl used ↦ rw used (kept.by_lock now "token_reuse" (f, s) db p)
    | inr unused ↦ elim (Bool-cases (any_revoked t f s)) [
      | inl revoked ↦ rw (unused, revoked) p
      | inr standing ↦ elim (Bool-cases (any_expired now r.idle_timeout_seconds t f s)) [
        | inl late ↦ rw (unused, standing, late) (kept.by_lock now "expired" (f, s) db p)
        | inr current ↦ elim (Bool-cases (other_client r f)) [
          | inl other ↦
              rw (unused, standing, current, other) (kept.by_lock now "client_mismatch" (f, s) db p)
          | inr same ↦
              rw (unused, standing, current, same)
                (kept.by_replace now r t f s db found unused standing p)
        ]
      ]
    ]
  ]

  rotate-kept :
      (now : ℕ) (r : Rotation) (db : Database) → P db → P (rotate_refresh_token now r db).1
  unfolding rotate_refresh_token
  rotate-kept now r db p = elim (Option-cases (token_row r.token_hash db)) [
    | inl missing ↦ rw (missing, rotate_refresh_token) p
    | inr (row, found) ↦ rw (found, rotate_refresh_token) (rotate_row-kept now r row db found p)
  ]

  revoke-kept :
      (user_id session_id : ℕ) (reason : String) (now : ℕ) (db : Database)
      → P db
      → P (revoke_session user_id session_id reason now db).1
  unfolding revoke_session
  revoke-kept u sid reason now db p = elim (Option-cases (owned_row u sid db)) [
    | inl missing ↦ rw (missing, revoke_session) p
    | inr (row, found) ↦ rw (found, revoke_session) (kept.by_lock now reason row db p)
  ]

  scope-kept :
      (user_id session_id workspace_id access_jti now : ℕ) (db : Database)
      → P db
      → P (scope_session user_id session_id workspace_id access_jti now db).1
  unfolding scope_session
  scope-kept u sid w j now db p = elim (Option-cases (active_owned_row u sid now db)) [
    | inl missing ↦ rw (missing, scope_session) p
    | inr ((f, s), found) ↦ rw (found, scope_session) (kept.by_scope w j now s db p)
  ]

  Step-kept : {db db' : Database} → Step db db' → P db → P db'
  unfolding create_session revoke_all
  Step-kept (creates now n db new) p =
      kept.by_add now n (evict_all now (overflow_rows n.user_id now db) db)
        (evict_all-IsNew n now (overflow_rows n.user_id now db) db new)
        (evict_all-kept now (overflow_rows n.user_id now db) db p)
  Step-kept (rotates now r db) p = rotate-kept now r db p
  Step-kept (revokes u sid reason now db) p = revoke-kept u sid reason now db p
  Step-kept (revokes_all u reason now db) p =
      revoke_each-kept now reason
        (rows_where (not_revoked_for u) (join_family db.families db.sessions)) db p
  Step-kept (scopes u sid w j now db) p = scope-kept u sid w j now db p
  Step-kept (audits ev o c u m db) p = kept.by_audit ev o c u m db p

  pub Reach-kept : {a b : Database} → Reach a b → P a → P b
  Reach-kept here p = p
  Reach-kept (next r st) p = Step-kept st (Reach-kept r p)

-- A run may begin with one more step.
pub Reach-before : {a b c : Database} → Step a b → Reach b c → Reach a c
Reach-before st here = next here st
Reach-before st (next r st') = next (Reach-before st r) st'
