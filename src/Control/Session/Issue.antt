-- ===== src/Control/Session/Issue.antt =====
-- control/session.py: `create_session`.
use auth_core.Prelude.{
  ℕ, ◌+◌, ◌*◌, String, Bool, false, not, Option, none, some, List, [], ◌∷◌, length, str_eq,
  if◌then◌else◌,
}
use auth_core.Prelude.Action.{pure, raise_if, require, gets, ◌>>=◌, ◌>>◌}
use auth_core.Entity.Session.{ClientType, client_value, TokenPair, SessionRecord}
use auth_core.Entity.Json.{Json, Members, text, uuid, number, member, end, get}
use auth_core.Redis.{second}
use auth_core.Security.{consume_login_workflow}
use auth_core.Tokens.{Grant, issue}
use auth_core.Persistence.SessionRepository.{NewSession, Rotation, rotate_refresh_token}
use auth_core.Persistence.SessionRepository
use auth_core.Control.Session.Setup.{
  SessionControl, Act, Token, in_redis, transaction, from_redis, audit, mark_all_revoked,
  invalid_workflow, session_absolute_seconds, refresh_family_seconds,
}

-- The tokens and UUIDs that a workflow draws at random.
pub record Draw : Type 0 where
  pub refresh_token : String
  pub csrf_token : String
  pub access_jti : ℕ
  pub family_id : ℕ
  pub session_id : ℕ
  pub refresh_token_id : ℕ

-- `secrets.token_urlsafe(32) if client_type == ClientType.WEB else None`
abbrev pub csrf_for : ClientType → String → Option String
csrf_for ClientType.web token = some token
csrf_for ClientType.mobile token = none

-- `workflow.get("decision") == "session_ready"`
abbrev pub is_text : String → Option Json → Bool
is_text s (some (text t)) = str_eq t s
is_text s _ = false

-- `UUID(str(value))`, none for a KeyError or a ValueError
abbrev pub uuid_of : Option Json → Option ℕ
uuid_of (some (uuid u)) = some u
uuid_of _ = none

-- A value that is there and not empty. The workflows hold texts under these names.
abbrev pub non_empty_text : Option Json → Option String
non_empty_text (some (text s)) = if str_eq s "" then none else some s
non_empty_text _ = none

-- `a or b`
abbrev pub first_of_two : Option String → Option String → Option String
first_of_two none b = b
first_of_two (some a) b = some a

abbrev pub method_of : Option String → String
method_of none = "unknown"
method_of (some m) = m

abbrev pub with_assurance : String → Option String → List String
with_assurance method none = method ∷ []
with_assurance method (some a) = method ∷ a ∷ []

-- `_assurance`
abbrev pub assurance_of : Members → List String
assurance_of workflow =
    with_assurance
      (method_of (
        first_of_two (non_empty_text (get "mfa_method" workflow))
          (non_empty_text (get "primary_method" workflow))))
      (non_empty_text (get "assurance" workflow))

module _ (control : SessionControl) where
  abbrev pub new_session_of : ℕ → ClientType → String → Option String → Draw → ℕ → NewSession
  new_session_of now client_type device_fingerprint ip_address draw user_id = record {
    user_id = user_id;
    client_type = client_type;
    device_fingerprint_hash = control.fingerprint_hash device_fingerprint;
    ip_address = ip_address;
    refresh_token_hash = control.token_hash draw.refresh_token;
    access_jti = draw.access_jti;
    family_expires_at = now + refresh_family_seconds * second;
    session_expires_at = now + session_absolute_seconds * second;
    refresh_expires_at = now + refresh_family_seconds * second;
    family_id = draw.family_id;
    session_id = draw.session_id;
    refresh_token_id = draw.refresh_token_id;
  }

  abbrev pub session_grant : SessionRecord → ℕ → ClientType → List String → Grant
  session_grant session jti client_type assurance = record {
    user_id = session.user_id;
    session_id = session.session_id;
    family_id = session.family_id;
    jti = jti;
    client_type = client_type;
    assurance = assurance;
    workspace_id = none;
    workspace_type = none;
    roles = [];
  }

  -- From the transaction on.
  open_session :
      ℕ
      → ClientType
      → String
      → Option String
      → ℕ
      → Draw
      → Members
      → ℕ
      → Act control (TokenPair (Token control))
  open_session now client_type device_fingerprint ip_address correlation_id draw workflow user_id =
      do
        created ← transaction control (
            SessionRepository.create_session now
              (new_session_of now client_type device_fingerprint ip_address draw user_id))
        let session = created.created
        let (access_token, access_expires_at) =
            issue control.tokens
              (session_grant session draw.access_jti client_type (assurance_of workflow)) now
        in_redis control (mark_all_revoked control now created.evicted)
        audit control "SESSION_CREATED" "success" correlation_id user_id (
            member "client_type" (text (client_value client_type))
              (member "evicted_sessions" (number (length created.evicted)) end))
        pure (record {
          access_token = access_token;
          refresh_token = draw.refresh_token;
          access_expires_at = access_expires_at;
          refresh_expires_at = now + session_absolute_seconds * second;
          session_id = session.session_id;
          csrf_token = csrf_for client_type draw.csrf_token;
        })

  unfoldable pub create_session :
      ℕ
      → String
      → ClientType
      → String
      → Option String
      → ℕ
      → Draw
      → Act control (TokenPair (Token control))
  unfolding open_session
  create_session now workflow_token client_type device_fingerprint ip_address correlation_id draw =
      do
        consumed ← from_redis control (consume_login_workflow control.redis now workflow_token)
        workflow ← require consumed invalid_workflow
        raise_if (not (is_text "session_ready" (get "decision" workflow))) invalid_workflow
        user_id ← require (uuid_of (get "user_id" workflow)) invalid_workflow
        active ← gets (λ w. SessionRepository.user_is_active user_id w.database)
        raise_if (not active) invalid_workflow
        open_session now client_type device_fingerprint ip_address correlation_id draw workflow
            user_id
