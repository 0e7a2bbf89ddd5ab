-- ===== src/Persistence/SessionLaws/Ended.antt =====
-- A session that is revoked is not active again along any run of the session repository.
use auth_core.Prelude.{
  ℕ, ◌≡◌, refl, String, Bool, true, false, ◌&&◌, some, List, [], ◌∷◌, arith, ◌==◌, is_none, is_some,
  or_else, if◌then◌else◌, find_row, update_where, ==→eq,
}
use auth_core.Prelude.Rows.{
  Every, Every-update_where, Every-append, found_and, found_and-append, found_and-update_where,
  found_and-exists, find_row_holds, Every-find,
}
use auth_core.Persistence.Tables.{Database, RefreshTokenFamily, Session}
use auth_core.Persistence.SessionRepository.{
  evict, NewSession, new_session, add_session, revoke_locked, touched, replace_token, set_scope,
  audit, join_family, owned_row, revoke_session, is_active, session_is_active,
}
use auth_core.Persistence.SessionLaws.Run.{IsNew, IsKept, Reach, Reach-kept}

-- A session's id is in the table, and every row with it is revoked.
pub record IsEnded (sid : ℕ) (db : Database) : Type 0 where
  pub known : found_and (λ s. s.session_id == sid) (λ s. true) db.sessions ≡ true
  pub revoked : Every (λ s. (s.session_id == sid && is_none s.revoked_at) ≡ false) db.sessions

module _ (sid : ℕ) where
  -- An update that keeps ids, and revocations, keeps a session ended.
  IsEnded-update :
      (w : Session → Bool) (f : Session → Session) (db db' : Database)
      → ((x : Session) → ((f x).session_id == sid) ≡ (x.session_id == sid))
      → ((x : Session) → is_none x.revoked_at ≡ false → is_none (f x).revoked_at ≡ false)
      → db'.sessions ≡ update_where w f db.sessions
      → IsEnded sid db
      → IsEnded sid db'
  IsEnded-update w f db db' same keeps eq e = record {
    known = rw eq (
        found_and-update_where (λ s. s.session_id == sid) (λ s. true) w f same (λ x q. refl)
          db.sessions e.known);
    revoked = rw eq (
        Every-update_where (λ s. (s.session_id == sid && is_none s.revoked_at) ≡ false) w f
          (λ x h. ground (arith, same x, keeps x)) db.sessions e.revoked);
  }

  -- A drawn id is not the id of an ended session.
  other_id :
      (n : NewSession) (db : Database) → IsNew n db → IsEnded sid db → (n.session_id == sid) ≡ false
  other_id n db new e =
      let (s, found, _) =
        found_and-exists (λ s. s.session_id == sid) (λ s. true) db.sessions e.known in
      let s_id : (s.session_id == sid) ≡ true =
        find_row_holds (λ s. s.session_id == sid) db.sessions s found in
      let s_new : (s.session_id == n.session_id) ≡ false =
        Every-find (λ s. (s.session_id == n.session_id) ≡ false) (λ s. s.session_id == sid)
          db.sessions s new.no_session found in
      ground arith

  IsEnded-add :
      (now : ℕ) (n : NewSession) (db : Database)
      → IsNew n db
      → IsEnded sid db
      → IsEnded sid (add_session now n db)
  IsEnded-add now n db new e = record {
    known = found_and-append (λ s. s.session_id == sid) (λ s. true) db.sessions _ e.known;
    revoked =
        Every-append (λ s. (s.session_id == sid && is_none s.revoked_at) ≡ false) db.sessions
          (new_session now n ∷ []) e.revoked (rw (other_id n db new e) refl, tt);
  }

  IsEnded-kept : IsKept (IsEnded sid)
  unfolding evict revoke_locked replace_token set_scope audit
  IsEnded-kept = record {
    by_evict = λ now (f, s) db e.
        IsEnded-update (λ x. x.session_id == s.session_id) (λ x. record x { revoked_at = some now })
          db _ (λ x. refl) (λ x h. refl) refl e;
    by_add = IsEnded-add;
    by_lock = λ now reason (f, s) db e.
        IsEnded-update (λ x. x.session_id == s.session_id)
          (λ x. record x { revoked_at = some (or_else x.revoked_at now) }) db _ (λ x. refl)
          (λ x h. refl) refl e;
    by_replace = λ now r t f s db found unused standing e.
        IsEnded-update (λ x. x.session_id == s.session_id) (touched now r) db _ (λ x. refl)
          (λ x h. h) refl e;
    by_scope = λ w j now s db e.
        IsEnded-update (λ x. x.session_id == s.session_id)
          (λ x. record x { org_id = some w; access_jti = j; last_activity_at = now }) db _
          (λ x. refl) (λ x h. h) refl e;
    by_audit = λ ev o c u m db e. record { known = e.known; revoked = e.revoked };
  }

  -- An ended session is not active.
  ended-inactive :
      (later : ℕ) (families : List RefreshTokenFamily) (ss : List Session)
      → Every (λ s. (s.session_id == sid && is_none s.revoked_at) ≡ false) ss
      → is_some
          (find_row (λ r. r.1.session_id == sid && is_active later r) (join_family families ss))
        ≡ false
  ended-inactive later families [] h = refl
  ended-inactive later families (s ∷ ss) h = ground (arith, ended-inactive later families ss h.1)

  locked-revoked :
      (now : ℕ) (ss : List Session)
      → Every
          (λ s. (s.session_id == sid && is_none s.revoked_at) ≡ false)
          (update_where
            (λ x. x.session_id == sid)
            (λ x. record x { revoked_at = some (or_else x.revoked_at now) })
            ss)
  locked-revoked now [] = tt
  locked-revoked now (s ∷ ss) = (locked_one now s, locked-revoked now ss)
    where
      locked_one :
          (now : ℕ) (s : Session)
          → ((if s.session_id == sid
                  then record s { revoked_at = some (or_else s.revoked_at now) }
                  else s).session_id
                == sid
              && is_none
                  (if s.session_id == sid
                    then record s { revoked_at = some (or_else s.revoked_at now) }
                    else s).revoked_at)
            ≡ false
      locked_one now s = ground arith

  session_known :
      (now : ℕ) (ss : List Session)
      → found_and (λ s. s.session_id == sid) (λ s. true) ss ≡ true
      → found_and
          (λ s. s.session_id == sid)
          (λ s. true)
          (update_where
            (λ x. x.session_id == sid)
            (λ x. record x { revoked_at = some (or_else x.revoked_at now) })
            ss)
        ≡ true
  session_known now ss e =
      found_and-update_where (λ s. s.session_id == sid) (λ s. true) (λ x. x.session_id == sid)
        (λ x. record x { revoked_at = some (or_else x.revoked_at now) }) (λ x. refl) (λ x q. refl)
        ss e

  joined-known :
      (user_id : ℕ) (families : List RefreshTokenFamily) (ss : List Session)
      (row : RefreshTokenFamily × Session)
      → find_row (λ r. r.1.session_id == sid && r.1.user_id == user_id) (join_family families ss)
        ≡ some row
      → (found_and (λ s. s.session_id == sid) (λ s. true) ss ≡ true)
        × ((row.1.session_id == sid) ≡ true)
  joined-known u families [] row e = ground arith
  joined-known u families (s ∷ ss) row e = ground (arith, joined-known u families ss row)

  -- Revoking a session of its owner ends it.
  revoke_session-IsEnded :
      (user_id : ℕ) (reason : String) (now : ℕ) (db : Database) (row : RefreshTokenFamily × Session)
      → owned_row user_id sid db ≡ some row
      → IsEnded sid (revoke_session user_id sid reason now db).1
  unfolding revoke_session owned_row revoke_locked
  revoke_session-IsEnded u reason now db (f, s) found =
      let (known, hit) = joined-known u db.families db.sessions (f, s) found in
      rw (found, revoke_session)
        (rw (==→eq s.session_id sid hit) (record {
          known = session_known now db.sessions known;
          revoked = locked-revoked now db.sessions;
        }))

-- Let a session be revoked for its owner. Then it is not active, at any time, after any further
-- transactions of the session repository.
pub revoke_session-ends :
    (user_id sid now later : ℕ) (reason : String) (db : Database) {db' : Database}
    (row : RefreshTokenFamily × Session)
    → owned_row user_id sid db ≡ some row
    → Reach (revoke_session user_id sid reason now db).1 db'
    → session_is_active sid later db' ≡ false
unfolding session_is_active
revoke_session-ends user_id sid now later reason db {db'} row found run =
    ended-inactive sid later db'.families db'.sessions
      (Reach-kept (IsEnded sid) (IsEnded-kept sid) run
        (revoke_session-IsEnded sid user_id reason now db row found)).revoked
