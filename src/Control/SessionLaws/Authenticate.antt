-- ===== src/Control/SessionLaws/Authenticate.antt =====
-- `authenticate`: what it takes to be let in, and what revocations shut out.
use auth_core.Prelude.{ℕ, ◌≡◌, ◌↔◌, refl, true, false, arith, ap, subst, inl, inr}
use auth_core.Prelude.Action.{ok, raised, Outcome-cases}
use auth_core.Entity.Session.{AccessClaims, SessionError}
use auth_core.Security.{access_token_is_revoked, family_is_revoked, user_revoked_at}
use auth_core.Tokens.{verify}
use auth_core.Persistence.SessionRepository.{session_is_active}
use auth_core.Control.Session.{
  SessionControl, W, Token, issued_by, organization_revoked, check_claims, authenticate,
}

module _ (control : SessionControl) (now : ℕ) where
  -- Nothing has revoked the token, its family, its user or its organization, and its session is active.
  pub record IsStanding (c : AccessClaims) (w : W control) : Type 0 where
    pub token : access_token_is_revoked control.redis now c.jti w.redis ≡ false
    pub family : family_is_revoked control.redis now c.family_id w.redis ≡ false
    pub user : issued_by c.issued_at (user_revoked_at control.redis now c.user_id w.redis) ≡ false
    pub organization : organization_revoked control now c w.redis ≡ false
    pub session : session_is_active c.session_id now w.database ≡ true

  -- One by one, the five tests decide `check_claims`.
  check_standing :
      (c : AccessClaims) (w : W control) → IsStanding c w → check_claims control now c w ≡ (ok c, w)
  unfolding check_claims
  check_standing c w st = ground arith

  standing_of_ok :
      (c d : AccessClaims) (w : W control)
      → (check_claims control now c w).0 ≡ ok d
      → IsStanding c w
  unfolding check_claims
  standing_of_ok c d w e = record {
    token = ground arith;
    family = ground arith;
    user = ground arith;
    organization = ground arith;
    session = ground arith;
  }

  check_state : (c : AccessClaims) (w : W control) → (check_claims control now c w).1 ≡ w
  unfolding check_claims
  check_state c w = ground arith

  check_value :
      (c d : AccessClaims) (w : W control) → (check_claims control now c w).0 ≡ ok d → c ≡ d
  unfolding check_claims
  check_value c d w e = ground arith

  -- `authenticate` is the check of what the token verifies as.
  pub authenticate-ok :
      (token : Token control) (c : AccessClaims) (w : W control)
      → verify control.tokens token now ≡ ok c
      → authenticate control now token w ≡ check_claims control now c w
  unfolding authenticate
  authenticate-ok token c w good = rw (good, authenticate)

  authenticate-raised :
      (token : Token control) (e : SessionError) (w : W control)
      → verify control.tokens token now ≡ raised e
      → authenticate control now token w ≡ (raised e, w)
  unfolding authenticate
  authenticate-raised token e w bad = rw (bad, authenticate)

  accepted :
      (token : Token control) (c d : AccessClaims) (w : W control)
      → verify control.tokens token now ≡ ok d
      → (check_claims control now d w).0 ≡ ok c
      → (verify control.tokens token now ≡ ok c) × IsStanding c w
  accepted token c d w good e =
      let same = check_value d c w e in
      subst (λ x. (verify control.tokens token now ≡ ok x) × IsStanding x w) same
        (good, standing_of_ok d c w e)

  granted :
      (token : Token control) (c d : AccessClaims) (w : W control)
      → verify control.tokens token now ≡ ok d
      → (verify control.tokens token now ≡ ok c) × IsStanding c w
      → check_claims control now d w ≡ (ok c, w)
  granted token c d w good h =
      let same : c ≡ d = cc (h.0) in
      subst (λ x. check_claims control now x w ≡ (ok c, w)) same (check_standing c w h.1)

  -- `authenticate` answers with claims exactly when the token verifies as these claims and they stand:
  -- no revocation of the token, the family, the user or the organization applies, and the session is
  -- active. It changes nothing.
  pub authenticate_iff :
      (token : Token control) (c : AccessClaims) (w : W control)
      → (((authenticate control now token w).0 ≡ ok c)
          ↔ ((verify control.tokens token now ≡ ok c) × IsStanding c w))
        × ((authenticate control now token w).1 ≡ w)
  authenticate_iff token c w = elim (Outcome-cases (verify control.tokens token now)) [
    | inl (d, good) ↦ rw (authenticate-ok token d w good) (
      (λ e. accepted token c d w good e, λ h. ap (λ r. r.0) (granted token c d w good h)),
      check_state d w,
    )
    | inr (e, bad) ↦
        rw (authenticate-raised token e w bad) ((λ h. absurd (cc), λ h. absurd (cc (h.0))), refl)
  ]
