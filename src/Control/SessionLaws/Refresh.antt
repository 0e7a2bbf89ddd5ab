-- ===== src/Control/SessionLaws/Refresh.antt =====
-- What a refresh does to the access tokens that were issued before.
use auth_core.Prelude.{ℕ, ◌+◌, ◌*◌, ◌≤◌, ◌<◌, ◌≡◌, String, true, some, arith, is_some}
use auth_core.Prelude.Action.{Outcome, ok, raised}
use auth_core.Entity.Session.{
  AccessClaims, ClientType, TokenPair, rotated, reused, RotationResult, RevocationResult,
  SessionError,
}
use auth_core.Redis.{second}
use auth_core.Security.{revoke_access_token}
use auth_core.Tokens.{verify}
use auth_core.Persistence.Tables.{Database, RefreshTokenFamily, RefreshToken, Session}
use auth_core.Persistence.SessionRepository.{
  rotate_row, rotate_refresh_token, token_row, revocation,
}
use auth_core.Control.Session.{
  SessionControl, W, Token, invalid_session, authenticate, Draw, refresh, rotation_of, withdraw,
  rotated_or_raise, mark_revoked, reuse_error, refresh_family_seconds, access_ttl_seconds,
}
use auth_core.Control.SessionLaws.Markers.{
  revoke_access_token-TokenMarked, access_token_is_revoked-marked, mark_revoked-FamilyMarked,
  family_is_revoked-marked,
}
use auth_core.Control.SessionLaws.Refused.{token-refused, family-refused, refused}

module _ (control : SessionControl) (now correlation_id : ℕ)
    (refresh_token device_fingerprint : String) (client_type : ClientType) (draw : Draw) where
  abbrev result : W control → RotationResult
  result w =
      (rotate_refresh_token now
        (rotation_of control now refresh_token client_type device_fingerprint draw) w.database).0

  abbrev refreshed : W control → Outcome SessionError (TokenPair (Token control)) × W control
  refreshed w =
      refresh control now refresh_token client_type device_fingerprint correlation_id draw w

  redis-refresh :
      (w : W control)
      → (refreshed w).1.redis ≡ withdraw control now (result w).status (result w).revoked w.redis
  unfolding refresh
  redis-refresh w = ground arith

  status-refresh :
      (w : W control) (pair : TokenPair (Token control))
      → (refreshed w).0 ≡ ok pair
      → (result w).status ≡ rotated
  unfolding refresh
  status-refresh w pair e = ground arith

  reuse_result :
      (w : W control) (t : RefreshToken) (f : RefreshTokenFamily) (s : Session)
      → token_row (control.token_hash refresh_token) w.database ≡ some (t, f, s)
      → is_some t.used_at ≡ true
      → ((result w).status ≡ reused) × ((result w).revoked ≡ some (revocation (f, s)))
  unfolding rotate_refresh_token rotate_row
  reuse_result w t f s found used = ground arith

  raised_of_reused :
      (w : W control) (v : RevocationResult)
      → (result w).status ≡ reused
      → (result w).revoked ≡ some v
      → ((refreshed w).0 ≡ raised (reuse_error control))
        × ((refreshed w).1.redis ≡ mark_revoked control now v w.redis)
  unfolding refresh rotated_or_raise withdraw
  raised_of_reused w v e e' = ground arith

  -- Let a refresh token that was used before be presented. The refresh raises the reuse error, and for
  -- the 30 days that a family lives every access token of the token's family that still verifies is
  -- refused, with Redis as the refresh left it and whatever the database holds.
  pub reuse_shuts_out :
      (later : ℕ) (t : RefreshToken) (f : RefreshTokenFamily) (s : Session) (w : W control)
      (database : Database) (token : Token control) (c : AccessClaims)
      → token_row (control.token_hash refresh_token) w.database ≡ some (t, f, s)
      → is_some t.used_at ≡ true
      → now ≤ later
      → later < now + refresh_family_seconds * second
      → verify control.tokens token later ≡ ok c
      → c.family_id ≡ f.family_id
      → ((refreshed w).0 ≡ raised (reuse_error control))
        × ((authenticate control later token
              (record { redis = (refreshed w).1.redis; database = database })).0
            ≡ raised invalid_session)
  reuse_shuts_out later t f s w database token c found used le lt good same =
      let (is_reused, is_revoked) = reuse_result w t f s found used in
      let (error, redis) = raised_of_reused w (revocation (f, s)) is_reused is_revoked in
      let marked = mark_revoked-FamilyMarked control now (revocation (f, s)) w.redis in
      let w' : W control = record { redis = (refreshed w).1.redis; database = database } in
      (
        error,
        refused control later token c w' good (
            family-refused control later c w' (
              rw (same, redis)
                (family_is_revoked-marked control now later f.family_id
                  (mark_revoked control now (revocation (f, s)) w.redis) le marked lt))),
      )

  rotated_result :
      (w : W control) (t : RefreshToken) (f : RefreshTokenFamily) (s : Session)
      → token_row (control.token_hash refresh_token) w.database ≡ some (t, f, s)
      → (result w).status ≡ rotated
      → (result w).revoked ≡ some (revocation (f, s))
  unfolding rotate_refresh_token rotate_row
  rotated_result w t f s found e = ground arith

  redis_of_rotated :
      (w : W control) (v : RevocationResult)
      → (result w).status ≡ rotated
      → (result w).revoked ≡ some v
      → (refreshed w).1.redis
        ≡ revoke_access_token control.redis now v.access_jti access_ttl_seconds w.redis
  unfolding withdraw
  redis_of_rotated w v e e' = ground (arith, redis-refresh w)

  -- Let a refresh answer with new tokens. Then the access token that the session had before is refused
  -- for the 900 seconds that an access token lives, if it still verifies, with Redis as the refresh
  -- left it and whatever the database holds.
  pub refresh_replaces_token :
      (later : ℕ) (t : RefreshToken) (f : RefreshTokenFamily) (s : Session) (w : W control)
      (pair : TokenPair (Token control)) (database : Database) (token : Token control)
      (c : AccessClaims)
      → token_row (control.token_hash refresh_token) w.database ≡ some (t, f, s)
      → (refreshed w).0 ≡ ok pair
      → now ≤ later
      → later < now + access_ttl_seconds * second
      → verify control.tokens token later ≡ ok c
      → c.jti ≡ s.access_jti
      → (authenticate control later token
          (record { redis = (refreshed w).1.redis; database = database })).0
        ≡ raised invalid_session
  refresh_replaces_token later t f s w pair database token c found granted le lt good same =
      let is_rotated = status-refresh w pair granted in
      let w' : W control = record { redis = (refreshed w).1.redis; database = database } in
      let redis : (refreshed w).1.redis
          ≡ revoke_access_token control.redis now s.access_jti access_ttl_seconds w.redis =
        redis_of_rotated w (revocation (f, s)) is_rotated
          (rotated_result w t f s found is_rotated) in
      refused control later token c w' good (
        token-refused control later c w' (
          rw (same, redis)
            (access_token_is_revoked-marked control now later s.access_jti
              (revoke_access_token control.redis now s.access_jti access_ttl_seconds w.redis) le
              (revoke_access_token-TokenMarked control now s.access_jti w.redis) lt)))
