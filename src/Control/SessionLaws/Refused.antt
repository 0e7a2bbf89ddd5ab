-- ===== src/Control/SessionLaws/Refused.antt =====
-- One failing check is enough for `authenticate` to raise the token error.
use auth_core.Prelude.{ℕ, ◌≡◌, true, false, arith, ap, ◌∙◌}
use auth_core.Prelude.Action.{raised, ok}
use auth_core.Entity.Session.{AccessClaims}
use auth_core.Security.{access_token_is_revoked, family_is_revoked, user_revoked_at}
use auth_core.Tokens.{verify}
use auth_core.Persistence.SessionRepository.{session_is_active}
use auth_core.Control.Session.{
  SessionControl, W, Token, invalid_session, issued_by, check_claims, authenticate,
}
use auth_core.Control.SessionLaws.Authenticate.{authenticate-ok}

module _ (control : SessionControl) where
  pub inactive-refused :
      (now : ℕ) (c : AccessClaims) (w : W control)
      → session_is_active c.session_id now w.database ≡ false
      → (check_claims control now c w).0 ≡ raised invalid_session
  unfolding check_claims
  inactive-refused now c w e = ground arith

  pub user-refused :
      (now : ℕ) (c : AccessClaims) (w : W control)
      → issued_by c.issued_at (user_revoked_at control.redis now c.user_id w.redis) ≡ true
      → (check_claims control now c w).0 ≡ raised invalid_session
  unfolding check_claims
  user-refused now c w e = ground arith

  pub family-refused :
      (now : ℕ) (c : AccessClaims) (w : W control)
      → family_is_revoked control.redis now c.family_id w.redis ≡ true
      → (check_claims control now c w).0 ≡ raised invalid_session
  unfolding check_claims
  family-refused now c w e = ground arith

  pub token-refused :
      (now : ℕ) (c : AccessClaims) (w : W control)
      → access_token_is_revoked control.redis now c.jti w.redis ≡ true
      → (check_claims control now c w).0 ≡ raised invalid_session
  unfolding check_claims
  token-refused now c w e = ground arith

  pub refused :
      (now : ℕ) (token : Token control) (c : AccessClaims) (w : W control)
      → verify control.tokens token now ≡ ok c
      → (check_claims control now c w).0 ≡ raised invalid_session
      → (authenticate control now token w).0 ≡ raised invalid_session
  refused now token c w good e = ap (λ r. r.0) (authenticate-ok control now token c w good) ∙ e
