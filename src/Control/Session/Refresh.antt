-- ===== src/Control/Session/Refresh.antt =====
-- control/session.py: `refresh`.
use auth_core.Prelude.{ℕ, ◌+◌, ◌*◌, String, true, Option, none, some, [], ◌∷◌}
use auth_core.Prelude.Action.{pure, raise, require, ◌>>=◌, ◌>>◌}
use auth_core.Entity.Session.{
  ClientType, client_value, SessionError, TokenPair, SessionRecord, RevocationResult,
  RotationStatus, rotated, reused, expired, RotationResult, invalid, SessionErrorCode, token_reused,
  session_expired,
}
use auth_core.Entity.Json.{text, flag, member, end}
use auth_core.Redis.{second}
use auth_core.Security.{State, revoke_access_token}
use auth_core.Tokens.{issue}
use auth_core.Persistence.SessionRepository.{Rotation, rotate_refresh_token}
use auth_core.Control.Session.Setup.{
  SessionControl, Act, Token, in_redis, transaction, audit, mark_revoked, invalid_session,
  access_ttl_seconds, idle_timeout_seconds, refresh_family_seconds,
}
use auth_core.Control.Session.Issue.{Draw, csrf_for, session_grant}

module _ (control : SessionControl) where
  -- What a rotation takes away: the old access token, or the old access token and its family.
  unfoldable pub withdraw :
      ℕ → RotationStatus → Option RevocationResult → State control.redis → State control.redis
  withdraw now status none s = s
  withdraw now rotated (some v) s =
      revoke_access_token control.redis now v.access_jti access_ttl_seconds s
  withdraw now status (some v) s = mark_revoked control now v s

  abbrev pub reuse_error : SessionError
  reuse_error = record {
    code = token_reused;
    message = "This session may have been stolen and has been ended. Please sign in again.";
    status_code = 401;
  }

  abbrev mismatch_error : SessionError
  mismatch_error = record {
    code = SessionErrorCode.client_mismatch;
    message = "This refresh token does not belong to this client or device.";
    status_code = 401;
  }

  abbrev expired_error : SessionError
  expired_error = record {
    code = session_expired;
    message = "This session has expired. Please sign in again.";
    status_code = 401;
  }

  abbrev audit_reuse : ℕ → Option RevocationResult → Act control Unit
  audit_reuse correlation_id none = pure tt
  audit_reuse correlation_id (some v) =
      audit control "REFRESH_TOKEN_REUSE_DETECTED" "denied" correlation_id v.user_id
        (member "family_revoked" (flag true) end)

  -- The statuses that raise, and the session of the one that does not.
  unfoldable pub rotated_or_raise : ℕ → RotationResult → Act control SessionRecord
  rotated_or_raise correlation_id result = elim result.status [
    | reused ↦ (do audit_reuse correlation_id result.revoked; raise reuse_error)
    | RotationStatus.client_mismatch ↦ raise mismatch_error
    | expired ↦ raise expired_error
    | invalid ↦ raise invalid_session
    | rotated ↦ require result.rotated_session invalid_session
  ]

  abbrev pub rotation_of : ℕ → String → ClientType → String → Draw → Rotation
  rotation_of now refresh_token client_type device_fingerprint draw = record {
    token_hash = control.token_hash refresh_token;
    replacement_hash = control.token_hash draw.refresh_token;
    replacement_expires_at = now + refresh_family_seconds * second;
    new_access_jti = draw.access_jti;
    client_type = client_type;
    device_fingerprint_hash = control.fingerprint_hash device_fingerprint;
    idle_timeout_seconds = idle_timeout_seconds;
    refresh_token_id = draw.refresh_token_id;
  }

  unfoldable pub refresh :
      ℕ → String → ClientType → String → ℕ → Draw → Act control (TokenPair (Token control))
  unfolding rotated_or_raise withdraw
  refresh now refresh_token client_type device_fingerprint correlation_id draw = do
    result ← transaction control (
        rotate_refresh_token now
          (rotation_of now refresh_token client_type device_fingerprint draw))
    in_redis control (withdraw now result.status result.revoked)
    session ← rotated_or_raise correlation_id result
    let (access_token, access_expires_at) =
        issue control.tokens
          (session_grant control session draw.access_jti client_type ("refresh_token" ∷ [])) now
    audit control "SESSION_REFRESHED" "success" correlation_id session.user_id
        (member "client_type" (text (client_value client_type)) end)
    pure (record {
      access_token = access_token;
      refresh_token = draw.refresh_token;
      access_expires_at = access_expires_at;
      refresh_expires_at = session.expires_at;
      session_id = session.session_id;
      csrf_token = csrf_for client_type draw.csrf_token;
    })
