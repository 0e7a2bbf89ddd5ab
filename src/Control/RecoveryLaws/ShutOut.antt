-- ===== src/Control/RecoveryLaws/ShutOut.antt =====
-- Who is shut out by a password reset and by a suspension.
use auth_core.Prelude.{
  ℕ, ◌+◌, ◌*◌, ◌/◌, ◌≤◌, ◌<◌, ◌≡◌, refl, sym, subst, find_row, update_where, List, [], ◌∷◌, String,
  true, false, some, arith, rows_where, ◌==◌,
}
use auth_core.Prelude.Action.{ok, raised}
use auth_core.Prelude.Rows.{find_row_holds, find_row-update_where}
use auth_core.Redis.{second}
use auth_core.Entity.User.{UserState}
use auth_core.Entity.Session.{AccessClaims}
use auth_core.Entity.PasswordPolicy.{password_fits}
use auth_core.Entity.Recovery.{RecoveryUser, updated, account_admin}
use auth_core.Security.{revoke_user}
use auth_core.Tokens.{verify}
use auth_core.Persistence.Tables.{Database, User, RefreshTokenFamily, Session}
use auth_core.Persistence.SessionRepository.{
  revoke_all, revoke_each, revoke_locked, not_revoked_for, join_family,
}
use auth_core.Persistence.RecoveryRepository.{
  consume_password_reset, staff_has_role, user_row, is_gone, suspend_user, put_state, recovery_user,
}
use auth_core.Control.Session.{
  SessionControl, W, Token, invalid_session, authenticate, revoke_user_access,
}
use auth_core.Control.SessionLaws.Markers.{
  UserMarked, mark_all_revoked-keeps_user, revoke_user-UserMarked, user_revoked_at-marked,
}
use auth_core.Control.SessionLaws.Refused.{user-refused, refused}
use auth_core.Control.Recovery.{RecoveryControl, reset_password, suspend, authorize, has_recent_mfa}

revoke_each-users :
    (now : ℕ) (reason : String) (rows : List (RefreshTokenFamily × Session)) (db : Database)
    → (revoke_each now reason rows db).users ≡ db.users
unfolding revoke_each revoke_locked
revoke_each-users now reason [] db = refl
revoke_each-users now reason (r ∷ rs) db =
    revoke_each-users now reason rs (revoke_locked now reason r db)

suspend_user_found :
    (actor target : ℕ) (ticket_reference reason : String) (correlation_id : ℕ) (db : Database)
    (u : User)
    → user_row target db ≡ some u
    → is_gone u.state ≡ false
    → ((suspend_user actor target ticket_reference reason correlation_id db).0
        ≡ some (recovery_user (put_state UserState.suspended u)))
      × (user_row target (suspend_user actor target ticket_reference reason correlation_id db).1
          ≡ some (put_state UserState.suspended u))
unfolding suspend_user
suspend_user_found actor target ticket reason corr db u found standing =
    let hit : (u.user_id == target) ≡ true =
      find_row_holds (λ x. x.user_id == target) db.users u found in
    let same : u.user_id ≡ target = ground (arith, hit) in
    let kept =
      find_row-update_where (λ x. x.user_id == target) (put_state UserState.suspended) (λ x. refl) u
        db.users found in
    rw (found, standing)
      (
        refl,
        subst
            (λ t.
              find_row (λ x. x.user_id == target)
                (update_where (λ x. x.user_id == t) (put_state UserState.suspended) db.users)
              ≡ some (put_state UserState.suspended u))
            (sym same) kept,
      )

module _ (control : SessionControl) where
  revoke_user_access-UserMarked :
      (now user_id : ℕ) (reason : String) (w : W control)
      → UserMarked control now user_id (revoke_user_access control now user_id reason w).1.redis
  unfolding revoke_user_access
  revoke_user_access-UserMarked now id reason w =
      mark_all_revoked-keeps_user control now id (revoke_all id reason now w.database).0
        (revoke_user control.redis now id now w.redis)
        (revoke_user-UserMarked control now id w.redis)

  revoke_user_access-user :
      (now user_id : ℕ) (reason : String) (w : W control)
      → user_row user_id (revoke_user_access control now user_id reason w).1.database
        ≡ user_row user_id w.database
  unfolding revoke_user_access revoke_all
  revoke_user_access-user now id reason w =
      rw
        (revoke_each-users now reason
          (rows_where (not_revoked_for id) (join_family w.database.families w.database.sessions))
          w.database)
        refl

  -- For 30 days every token of a user whose access was revoked is refused, if it was issued in that
  -- second or before, whatever the database holds.
  abbrev ShutsOut : ℕ → ℕ → W control → Type 0
  ShutsOut now user_id w =
      (later : ℕ) (c : AccessClaims) (token : Token control) (database : Database)
      → now ≤ later
      → later < now + 2_592_000 * second
      → verify control.tokens token later ≡ ok c
      → c.user_id ≡ user_id
      → c.issued_at ≤ now / second * second
      → (authenticate control later token (record { redis = w.redis; database = database })).0
        ≡ raised invalid_session

  marked-ShutsOut :
      (now user_id : ℕ) (w : W control)
      → UserMarked control now user_id w.redis
      → ShutsOut now user_id w
  marked-ShutsOut now user_id w marked later c token database le lt good same early =
      refused control later token c (record { redis = w.redis; database = database }) good
        (user-refused control later c (record { redis = w.redis; database = database })
          (rw same (
            rw (user_revoked_at-marked control now later user_id w.redis le marked lt)
              (ground arith))))

  revoke_user_access-ShutsOut :
      (now user_id : ℕ) (reason : String) (w : W control)
      → ShutsOut now user_id (revoke_user_access control now user_id reason w).1
  revoke_user_access-ShutsOut now user_id reason w =
      marked-ShutsOut now user_id (revoke_user_access control now user_id reason w).1
        (revoke_user_access-UserMarked now user_id reason w)

module _ (control : RecoveryControl) where
  -- Let a password pass the policy and be in no known breach, and let the repository accept the reset
  -- for a user. Then the reset succeeds, and for 30 days every token of the user that was issued in that
  -- second or before and still verifies is refused, with Redis as the reset left it and whatever the
  -- database holds.
  pub reset_password_shuts_out :
      (now : ℕ) (token password : String) (salt correlation_id history_id : ℕ)
      (w : W control.sessions) (user : RecoveryUser) (later : ℕ) (c : AccessClaims)
      (issued : Token control.sessions) (database : Database)
      → password_fits password ≡ true
      → control.breach_count password ≡ some 0
      → (consume_password_reset control.password_hasher.verify now
          (control.token_hash token)
          password
          (control.password_hasher.hash salt password)
          correlation_id
          history_id
          w.database).0
        ≡ (updated, some user)
      → now ≤ later
      → later < now + 2_592_000 * second
      → verify control.sessions.tokens issued later ≡ ok c
      → c.user_id ≡ user.user_id
      → c.issued_at ≤ now / second * second
      → ((reset_password control now token password salt correlation_id history_id w).0 ≡ ok tt)
        × ((authenticate control.sessions later issued (record {
          redis =
              (reset_password control now token password salt correlation_id history_id w).1.redis;
          database = database;
        })).0
            ≡ raised invalid_session)
  unfolding reset_password
  reset_password_shuts_out now token password salt corr hid w user later c issued database fits
        clean accepted le lt good same early =
      let db =
        (consume_password_reset control.password_hasher.verify now (control.token_hash token)
          password (control.password_hasher.hash salt password) corr hid w.database).1 in
      let shut =
        revoke_user_access-ShutsOut control.sessions now user.user_id "password_reset"
          (record w { database = db }) in
      rw (fits, clean, accepted) (refl, shut later c issued database le lt good same early)

  -- Let an account administrator with recent strong authentication suspend an account that is neither
  -- disabled nor anonymized. Then the suspension succeeds, the account is suspended, and for 30 days
  -- every token of its user that was issued in that second or before and still verifies is refused, with
  -- Redis as the suspension left it and whatever the database holds.
  pub suspend_shuts_out :
      (now : ℕ) (claims : AccessClaims) (target : ℕ) (ticket_reference reason : String)
      (correlation_id : ℕ) (w : W control.sessions) (u : User) (later : ℕ) (c : AccessClaims)
      (issued : Token control.sessions) (database : Database)
      → has_recent_mfa claims.assurance ≡ true
      → staff_has_role claims.user_id account_admin w.database ≡ true
      → user_row target w.database ≡ some u
      → is_gone u.state ≡ false
      → now ≤ later
      → later < now + 2_592_000 * second
      → verify control.sessions.tokens issued later ≡ ok c
      → c.user_id ≡ target
      → c.issued_at ≤ now / second * second
      → ((suspend control now claims target ticket_reference reason correlation_id w).0 ≡ ok tt)
        × (user_row target
              (suspend control now claims target ticket_reference reason correlation_id
                w).1.database
            ≡ some (put_state UserState.suspended u))
        × ((authenticate control.sessions later issued (record {
          redis =
              (suspend control now claims target ticket_reference reason correlation_id w).1.redis;
          database = database;
        })).0
            ≡ raised invalid_session)
  unfolding suspend authorize
  suspend_shuts_out now claims target ticket reason corr w u later c issued database recent allowed
        found standing le lt good same early =
      let done =
        suspend_user_found claims.user_id target ticket reason corr w.database u found standing in
      let w' = record w {
        database = (suspend_user claims.user_id target ticket reason corr w.database).1;
      } in
      let kept = revoke_user_access-user control.sessions now target "account_suspended" w' in
      let shut = revoke_user_access-ShutsOut control.sessions now target "account_suspended" w' in
      rw (recent, allowed, done.0)
        (refl, rw kept done.1, shut later c issued database le lt good same early)
