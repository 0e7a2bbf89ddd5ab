-- ===== src/Control/Session/Authenticate.antt =====
-- control/session.py: `authenticate`, `issue_workspace_scope` and `sessions`.
use auth_core.Prelude.{
  ℕ, String, Bool, false, not, ◌&&◌, Option, none, some, List, map, ◌==◌, leb, str_eq,
}
use auth_core.Prelude.Action.{pure, raise_if, require, gets, continue, ◌>>=◌, ◌>>◌}
use auth_core.Entity.Session.{AccessClaims, SessionSummary}
use auth_core.Entity.Json.{text, uuid, member, end}
use auth_core.Security.{
  State, access_token_is_revoked, family_is_revoked, user_revoked_at, organization_revoked_at,
  revoke_access_token,
}
use auth_core.Tokens.{Grant, issue, verify}
use auth_core.Persistence.SessionRepository
use auth_core.Control.Session.Setup.{
  SessionControl, W, Act, Token, in_redis, transaction, audit, invalid_session, access_ttl_seconds,
}

-- entity/workspace.py: the fields of `WorkspaceSummary` that are read here.
pub record Workspace : Type 0 where
  pub workspace_id : ℕ
  pub workspace_type : String
  pub roles : List String

-- `revoked_at is not None and claims.issued_at <= revoked_at`
abbrev pub issued_by : ℕ → Option ℕ → Bool
issued_by issued_at none = false
issued_by issued_at (some revoked_at) = leb issued_at revoked_at

abbrev pub is_organization : Option String → Bool
is_organization none = false
is_organization (some t) = str_eq t "organization"

module _ (control : SessionControl) where
  -- The access to an organization was revoked after the token was issued.
  abbrev pub organization_revoked : ℕ → AccessClaims → State control.redis → Bool
  organization_revoked now claims s = elim claims.workspace_id [
    | none ↦ false
    | some w ↦
        is_organization claims.workspace_type
        && issued_by claims.issued_at (organization_revoked_at control.redis now claims.user_id w s)
  ]

  -- The checks on the claims of a token, in the order of the source.
  unfoldable pub check_claims : ℕ → AccessClaims → Act control AccessClaims
  check_claims now claims = do
    jti ← gets (λ w. access_token_is_revoked control.redis now claims.jti w.redis)
    raise_if jti invalid_session
    family ← gets (λ w. family_is_revoked control.redis now claims.family_id w.redis)
    raise_if family invalid_session
    user ←
        gets (λ w.
          issued_by claims.issued_at (user_revoked_at control.redis now claims.user_id w.redis))
    raise_if user invalid_session
    organization ← gets (λ w. organization_revoked now claims w.redis)
    raise_if organization invalid_session
    active ← gets (λ w. SessionRepository.session_is_active claims.session_id now w.database)
    raise_if (not active) invalid_session
    pure claims

  unfoldable pub authenticate : ℕ → Token control → Act control AccessClaims
  unfolding check_claims
  authenticate now access_token w =
      continue (verify control.tokens access_token now) (check_claims now) w

  abbrev pub workspace_grant : AccessClaims → Workspace → ℕ → Grant
  workspace_grant claims workspace jti = record {
    user_id = claims.user_id;
    session_id = claims.session_id;
    family_id = claims.family_id;
    jti = jti;
    client_type = claims.client_type;
    assurance = claims.assurance;
    workspace_id = some workspace.workspace_id;
    workspace_type = some workspace.workspace_type;
    roles = workspace.roles;
  }

  unfoldable pub issue_workspace_scope :
      ℕ → AccessClaims → Workspace → ℕ → ℕ → Act control (Token control × ℕ)
  issue_workspace_scope now claims workspace correlation_id new_jti = do
    scoped ← transaction control (
        SessionRepository.scope_session claims.user_id claims.session_id workspace.workspace_id
          new_jti now)
    previous_jti ← require scoped invalid_session
    in_redis control (revoke_access_token control.redis now previous_jti access_ttl_seconds)
    audit control "WORKSPACE_CONTEXT_SWITCHED" "success" correlation_id claims.user_id (
        member "workspace_id" (uuid workspace.workspace_id)
          (member "workspace_type" (text workspace.workspace_type) end))
    pure (issue control.tokens (workspace_grant claims workspace new_jti) now)

  -- `replace(item, current=...)`
  abbrev pub mark_current : AccessClaims → SessionSummary → SessionSummary
  mark_current claims item = record item { current = item.session_id == claims.session_id }

  unfoldable pub sessions : ℕ → AccessClaims → W control → List SessionSummary
  sessions now claims w =
      map (mark_current claims) (SessionRepository.list_sessions claims.user_id now w.database)
