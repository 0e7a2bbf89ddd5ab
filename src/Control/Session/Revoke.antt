-- ===== src/Control/Session/Revoke.antt =====
-- control/session.py: logging out, and revoking sessions, users and access to organizations.
use auth_core.Prelude.{ℕ, String, Option, none, some, List, [], ◌∷◌, length}
use auth_core.Prelude.Action.{pure, require, ◌>>=◌, ◌>>◌}
use auth_core.Entity.Session.{SessionError, session_not_found, AccessClaims, RevocationResult}
use auth_core.Entity.Json.{uuid, number, member, end}
use auth_core.Security.{
  State, revoke_access_token, revoke_user, revoke_organization, clear_organization_revocation,
}
use auth_core.Persistence.SessionRepository
use auth_core.Control.Session.Setup.{
  SessionControl, Act, in_redis, transaction, audit, mark_revoked, mark_all_revoked,
  access_ttl_seconds,
}

abbrev not_found_error : SessionError
not_found_error = record {
  code = session_not_found;
  message = "The selected session was not found.";
  status_code = 404;
}

module _ (control : SessionControl) where
  unfoldable pub revoke_tokens : ℕ → List ℕ → State control.redis → State control.redis
  revoke_tokens now [] s = s
  revoke_tokens now (jti ∷ jtis) s =
      revoke_tokens now jtis (revoke_access_token control.redis now jti access_ttl_seconds s)

  unfoldable pub revoke_organization_access : ℕ → ℕ → ℕ → List ℕ → Act control Unit
  unfolding revoke_tokens
  revoke_organization_access now user_id workspace_id access_jtis = in_redis control (λ s.
      revoke_tokens now access_jtis
        (revoke_organization control.redis now user_id workspace_id now s))

  unfoldable pub restore_organization_access : ℕ → ℕ → Act control Unit
  restore_organization_access user_id workspace_id =
      in_redis control (clear_organization_revocation control.redis user_id workspace_id)

  -- The part that `revoke_user_access` and `logout_all` share.
  abbrev revoke_everywhere : ℕ → ℕ → String → Act control (List RevocationResult)
  revoke_everywhere now user_id reason = do
    results ← transaction control (SessionRepository.revoke_all user_id reason now)
    in_redis control
        (λ s. mark_all_revoked control now results (revoke_user control.redis now user_id now s))
    pure results

  unfoldable pub revoke_user_access : ℕ → ℕ → String → Act control ℕ
  revoke_user_access now user_id reason = do
    results ← revoke_everywhere now user_id reason
    pure (length results)

  -- `if result is not None: await self._apply_revocation(result, now)`
  abbrev mark_if_some : ℕ → Option RevocationResult → State control.redis → State control.redis
  mark_if_some now none s = s
  mark_if_some now (some v) s = mark_revoked control now v s

  unfoldable pub logout : ℕ → AccessClaims → ℕ → Act control Unit
  logout now claims correlation_id = do
    result ←
        transaction control
          (SessionRepository.revoke_session claims.user_id claims.session_id "logout" now)
    in_redis control (mark_if_some now result)
    audit control "SESSION_LOGGED_OUT" "success" correlation_id claims.user_id
        (member "session_id" (uuid claims.session_id) end)

  unfoldable pub logout_all : ℕ → AccessClaims → ℕ → Act control ℕ
  logout_all now claims correlation_id = do
    results ← revoke_everywhere now claims.user_id "logout_all"
    audit control "ALL_SESSIONS_LOGGED_OUT" "success" correlation_id claims.user_id
        (member "revoked_sessions" (number (length results)) end)
    pure (length results)

  unfoldable pub revoke_selected : ℕ → AccessClaims → ℕ → ℕ → Act control Unit
  revoke_selected now claims session_id correlation_id = do
    result ←
        transaction control
          (SessionRepository.revoke_session claims.user_id session_id "user_selected" now)
    value ← require result not_found_error
    in_redis control (mark_revoked control now value)
    audit control "SESSION_REVOKED" "success" correlation_id claims.user_id
        (member "session_id" (uuid session_id) end)
