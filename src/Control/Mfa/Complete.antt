-- ===== src/Control/Mfa/Complete.antt =====
-- control/mfa.py: `_complete` and `_ensure_backup_codes`.
use auth_core.Prelude.{
  ℕ, String, not, Option, none, some, List, [], map, str_eq, any_row, if◌then◌else◌,
}
use auth_core.Prelude.Action.{raise_if, require, modify, pure, ◌>>=◌, ◌>>◌}
use auth_core.Entity.Json.{Members, text, uuid, member, end, get}
use auth_core.Entity.Mfa.{MfaCompletion, session_ready, identity_linked}
use auth_core.Security.{store_login_workflow}
use auth_core.Persistence.Tables.{IdentityProvider, google, apple, microsoft, FactorType}
use auth_core.Persistence.LoginRepository
use auth_core.Persistence.MfaRepository.{
  active_factors, same_factor, link_oidc_identity, store_backup_codes,
}
use auth_core.Control.Session.{is_text}
use auth_core.Control.Mfa.Setup.{
  MfaControl, backup_hash, Act, in_redis, transaction, workflow_error, text_of,
}

-- The providers that the table's constraint allows.
abbrev pub provider_named : String → Option IdentityProvider
provider_named s =
    if str_eq s "google"
    then some google
    else if str_eq s "apple"
    then some apple
    else if str_eq s "microsoft"
    then some microsoft
    else if str_eq s "phone"
    then some IdentityProvider.phone
    else if str_eq s "password"
    then some IdentityProvider.password
    else none

-- What a completion draws at random.
pub record CompletionDraw : Type 0 where
  pub token : String
  pub identity_id : ℕ

-- The workflow that a session is then created from.
abbrev pub ready_workflow : ℕ → String → Members
ready_workflow user_id method = member "user_id" (uuid user_id) (
    member "decision" (text "session_ready")
      (member "assurance" (text "mfa") (member "mfa_method" (text method) end)))

module _ (control : MfaControl) where
  abbrev pub audit : String → ℕ → ℕ → Members → Act control Unit
  audit event_type correlation_id user_id metadata = modify (λ w. record w {
    database =
        LoginRepository.audit event_type "success" correlation_id (some user_id) metadata
          w.database;
  })

  unfoldable pub link_identity :
      ℕ → Members → String → ℕ → CompletionDraw → Act control MfaCompletion
  link_identity user_id workflow method correlation_id draw = do
    provider ← require (text_of (get "oidc_provider" workflow)) workflow_error
    subject ← require (text_of (get "oidc_subject" workflow)) workflow_error
    named ← require (provider_named provider) workflow_error
    linked ← transaction control (link_oidc_identity user_id named subject draw.identity_id)
    raise_if (not linked) workflow_error
    audit "OIDC_ACCOUNT_COLLISION_RESOLVED" correlation_id user_id
        (member "method" (text method) (member "provider" (text provider) end))
    pure (record { result = identity_linked; workflow_token = none; backup_codes = [] })

  unfoldable pub session_workflow : ℕ → ℕ → String → ℕ → CompletionDraw → Act control MfaCompletion
  session_workflow now user_id method correlation_id draw = do
    in_redis control
        (store_login_workflow control.redis now draw.token (ready_workflow user_id method))
    audit "MFA_VERIFIED" correlation_id user_id (member "method" (text method) end)
    pure (record { result = session_ready; workflow_token = some draw.token; backup_codes = [] })

  -- `_complete`
  unfoldable pub complete :
      ℕ → ℕ → Members → String → ℕ → CompletionDraw → Act control MfaCompletion
  complete now user_id workflow method correlation_id draw =
      if is_text "collision_proof_required" (get "decision" workflow)
      then link_identity user_id workflow method correlation_id draw
      else session_workflow now user_id method correlation_id draw

  -- `_ensure_backup_codes`, with the ten codes and the key of the row that it may draw
  unfoldable pub ensure_backup_codes : ℕ → ℕ → List String → ℕ → Act control (List String)
  ensure_backup_codes now user_id codes mfa_id w =
      if any_row (λ f. same_factor f.factor_type FactorType.backup_codes)
        (active_factors user_id w.database)
      then pure [] w
      else pure codes (record w {
        database =
            store_backup_codes now user_id (map (backup_hash control) codes) mfa_id w.database;
      })
