-- ===== src/Control/SessionLaws/ShutOut.antt =====
-- Who is shut out by a logout, and by a logout everywhere.
use auth_core.Prelude.{ℕ, ◌+◌, ◌*◌, ◌/◌, ◌≤◌, ◌<◌, ◌≡◌, some, arith}
use auth_core.Prelude.Action.{ok, raised}
use auth_core.Entity.Session.{AccessClaims}
use auth_core.Entity.Json.{uuid, member, end}
use auth_core.Redis.{second}
use auth_core.Security.{revoke_user}
use auth_core.Tokens.{verify}
use auth_core.Persistence.Tables.{Database, RefreshTokenFamily, Session}
use auth_core.Persistence.SessionRepository.{owned_row, revoke_session, revoke_all}
use auth_core.Persistence.SessionLaws.Run.{Reach, Reach-before, audits, Step}
use auth_core.Persistence.SessionLaws.Ended.{revoke_session-ends}
use auth_core.Control.Session.{
  SessionControl, W, Token, invalid_session, authenticate, logout, logout_all,
}
use auth_core.Control.SessionLaws.Markers.{
  UserMarked, mark_all_revoked-keeps_user, revoke_user-UserMarked, user_revoked_at-marked,
}
use auth_core.Control.SessionLaws.Refused.{inactive-refused, user-refused, refused}

module _ (control : SessionControl) where
  after_logout :
      (now correlation_id : ℕ) (claims : AccessClaims) (w : W control)
      → Step
          (revoke_session claims.user_id claims.session_id "logout" now w.database).1
          (logout control now claims correlation_id w).1.database
  unfolding logout
  after_logout now corr claims w =
      audits "SESSION_LOGGED_OUT" "success" corr claims.user_id
        (member "session_id" (uuid claims.session_id) end)
        (revoke_session claims.user_id claims.session_id "logout" now w.database).1

  -- Let the user of a session log out of it. Then, whatever transactions of the session
  -- repository follow and whatever Redis holds, every token of the session that still verifies is
  -- refused.
  pub logout_shuts_out :
      (now later correlation_id : ℕ) (claims c : AccessClaims) (token : Token control)
      (w w' : W control) (row : RefreshTokenFamily × Session)
      → owned_row claims.user_id claims.session_id w.database ≡ some row
      → Reach (logout control now claims correlation_id w).1.database w'.database
      → verify control.tokens token later ≡ ok c
      → c.session_id ≡ claims.session_id
      → (authenticate control later token w').0 ≡ raised invalid_session
  logout_shuts_out now later corr claims c token w w' row found run good same =
      refused control later token c w' good (
        inactive-refused control later c w' (
          rw same (
            revoke_session-ends claims.user_id claims.session_id now later "logout" w.database row
              found (Reach-before (after_logout now corr claims w) run))))

  logout_all-UserMarked :
      (now correlation_id : ℕ) (claims : AccessClaims) (w : W control)
      → UserMarked control now claims.user_id
          (logout_all control now claims correlation_id w).1.redis
  unfolding logout_all
  logout_all-UserMarked now corr claims w =
      mark_all_revoked-keeps_user control now claims.user_id
        (revoke_all claims.user_id "logout_all" now w.database).0
        (revoke_user control.redis now claims.user_id now w.redis)
        (revoke_user-UserMarked control now claims.user_id w.redis)

  -- Let a user log out everywhere. Then for 30 days every token of the user that was issued in that
  -- second or before and still verifies is refused, with Redis as the logout left it and whatever the
  -- database holds.
  pub logout_all_shuts_out :
      (now later correlation_id : ℕ) (claims c : AccessClaims) (token : Token control)
      (w : W control) (database : Database)
      → now ≤ later
      → later < now + 2_592_000 * second
      → verify control.tokens token later ≡ ok c
      → c.user_id ≡ claims.user_id
      → c.issued_at ≤ now / second * second
      → (authenticate control later token (record {
        redis = (logout_all control now claims correlation_id w).1.redis;
        database = database;
      })).0
        ≡ raised invalid_session
  logout_all_shuts_out now later corr claims c token w database le lt good same early =
      let w' : W control = record {
        redis = (logout_all control now claims corr w).1.redis;
        database = database;
      } in
      let marked = logout_all-UserMarked now corr claims w in
      refused control later token c w' good (
        user-refused control later c w' (
          rw same (
            rw (user_revoked_at-marked control now later claims.user_id w'.redis le marked lt)
              (ground arith))))
