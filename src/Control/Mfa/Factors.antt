-- ===== src/Control/Mfa/Factors.antt =====
-- control/mfa.py: the methods of a user, and the removal of a factor.
use auth_core.Prelude.{
  ℕ, String, Bool, not, ◌&&◌, Option, List, [], ◌∷◌, map, ◌==◌, leb, is_some, length, any_row,
  rows_where, find_row,
}
use auth_core.Prelude.Action.{raise_if, require, gets, pure, ◌>>=◌, ◌>>◌}
use auth_core.Entity.Json.{Members, text, member, end}
use auth_core.Entity.Mfa.{
  MfaMethod, totp, email_otp, sms_otp, passkey, backup_code, MfaUserProfile, MfaCompletion,
}
use auth_core.Persistence.Tables.{FactorType}
use auth_core.Persistence.MfaRepository.{MfaFactor, active_factors, same_factor}
use auth_core.Persistence.MfaRepository
use auth_core.Control.Mfa.Setup.{
  MfaControl, Act, transaction, workflow, active_profile, require_mfa_assurance, consume_workflow,
  is_strong, workflow_error, method_error, last_factor_error,
}
use auth_core.Control.Mfa.Complete.{CompletionDraw, audit, complete}

abbrev has_factor : FactorType → List MfaFactor → Bool
has_factor t factors = any_row (λ f. same_factor f.factor_type t) factors

-- Whether a method is in the set of `_methods`.
abbrev pub offers : MfaUserProfile → List MfaFactor → MfaMethod → Bool
offers profile factors email_otp = is_some profile.email
offers profile factors sms_otp = is_some profile.phone_e164
offers profile factors totp = has_factor FactorType.totp factors
offers profile factors passkey = has_factor FactorType.passkey factors
offers profile factors backup_code = has_factor FactorType.backup_codes factors

abbrev pub type_value : FactorType → String
type_value FactorType.totp = "totp"
type_value FactorType.sms = "sms"
type_value FactorType.email = "email"
type_value FactorType.passkey = "passkey"
type_value FactorType.backup_codes = "backup_codes"

abbrev pub strong_factors : List MfaFactor → List MfaFactor
strong_factors factors = rows_where (λ f. is_strong f.factor_type) factors

-- entity/mfa.py
pub record MfaFactorSummary : Type 0 where
  pub mfa_id : ℕ
  pub factor_type : FactorType
  pub label : Option String

abbrev summary : MfaFactor → MfaFactorSummary
summary f = record { mfa_id = f.mfa_id; factor_type = f.factor_type; label = f.label }

module _ (control : MfaControl) where
  -- In the order of the methods' values.
  unfoldable pub available_methods : ℕ → String → Act control (List MfaMethod)
  available_methods now workflow_token = do
    (payload, user_id) ← workflow control now workflow_token
    profile ← active_profile control user_id
    factors ← gets (λ w. active_factors user_id w.database)
    pure (
        rows_where (offers profile factors)
          (backup_code ∷ email_otp ∷ passkey ∷ sms_otp ∷ totp ∷ []))

  unfoldable pub list_factors : ℕ → String → Act control (List MfaFactorSummary)
  list_factors now workflow_token = do
    (payload, user_id) ← workflow control now workflow_token
    require_mfa_assurance control payload
    profile ← active_profile control user_id
    gets (λ w. map summary (active_factors user_id w.database))

  -- What follows the checks of `revoke_factor`, whose `factor_id` is the key of the target.
  unfoldable pub remove_target :
      ℕ → String → Members → ℕ → MfaFactor → ℕ → CompletionDraw → Act control MfaCompletion
  remove_target now workflow_token payload user_id target correlation_id draw = do
    consumed ← consume_workflow control now workflow_token
    revoked ← transaction control (MfaRepository.revoke_factor now user_id target.mfa_id)
    raise_if (not revoked) workflow_error
    audit control "MFA_FACTOR_REVOKED" correlation_id user_id
        (member "factor_type" (text (type_value target.factor_type)) end)
    complete control now user_id payload "factor_management" correlation_id draw

  unfoldable pub revoke_factor : ℕ → String → ℕ → ℕ → CompletionDraw → Act control MfaCompletion
  unfolding remove_target
  revoke_factor now workflow_token factor_id correlation_id draw = do
    (payload, user_id) ← workflow control now workflow_token
    require_mfa_assurance control payload
    factors ← gets (λ w. active_factors user_id w.database)
    target ← require (find_row (λ f. f.mfa_id == factor_id) factors) method_error
    raise_if (is_strong target.factor_type && leb (length (strong_factors factors)) 1)
        last_factor_error
    remove_target now workflow_token payload user_id target correlation_id draw
