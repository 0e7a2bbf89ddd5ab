-- ===== src/Tokens/RoundTrip.antt =====
-- What `verify` makes of a token that `issue` made.
use auth_core.Prelude.{
  ℕ, ◌+◌, ◌*◌, ◌/◌, ◌≤◌, ◌<◌, ◌≡◌, refl, String, Option, none, some, List, [], arith,
}
use auth_core.Prelude.Action.{ok, raised}
use auth_core.Entity.Session.{ClientType, client_value, AccessClaims}
use auth_core.Redis.{second}
use auth_core.Tokens.{
  Payload, TokenProvider, Grant, scoped, claims_of, non_empty, unscoped, payload, issue, verify,
  invalid_token,
}

-- The workspace that a token carries: all of it, or nothing where an id or a type is missing.
abbrev pub scope_of :
    Option ℕ → Option String → List String → Option ℕ × Option String × List String
scope_of (some w) (some t) roles = (some w, non_empty (some t), roles)
scope_of _ _ roles = (none, none, [])

-- The claims that a grant stands for, its times in whole seconds.
abbrev pub granted_claims : TokenProvider → Grant → ℕ → AccessClaims
granted_claims provider g now =
    let (w, t, roles) = scope_of g.workspace_id g.workspace_type g.roles in
    record {
      user_id = g.user_id;
      session_id = g.session_id;
      family_id = g.family_id;
      jti = g.jti;
      issued_at = now / second * second;
      expires_at = (now + provider.access_ttl_seconds * second) / second * second;
      client_type = g.client_type;
      assurance = g.assurance;
      workspace_id = w;
      workspace_type = t;
      roles = roles;
    }

module _ (provider : TokenProvider) where
  scoped_times :
      (w : Option ℕ) (t : Option String) (roles : List String) (p : Payload)
      → ((scoped w t roles p).iss ≡ p.iss)
        × ((scoped w t roles p).aud ≡ p.aud)
        × ((scoped w t roles p).nbf ≡ p.nbf)
        × ((scoped w t roles p).exp ≡ p.exp)
  scoped_times none t roles p = (refl, refl, refl, refl)
  scoped_times (some w) none roles p = (refl, refl, refl, refl)
  scoped_times (some w) (some t) roles p = (refl, refl, refl, refl)

  decoded :
      (g : Grant) (now later : ℕ)
      → now ≤ later
      → later < ((now + provider.access_ttl_seconds * second) / second) * second
      → provider.jwt.decode provider.issuer provider.audience later (issue provider g now).0
        ≡ some (payload provider g now)
  unfolding issue
  decoded g now later le lt =
      let (ei, ea, en, ee) =
        scoped_times g.workspace_id g.workspace_type g.roles (unscoped provider g now) in
      provider.jwt.decode_encode provider.issuer provider.audience later (payload provider g now) ei
        ea (omega arith) (omega arith)

  claims_of-scoped :
      (u sid fid jti iat nbf exp : ℕ) (c : ClientType) (a : List String) (w : Option ℕ)
      (t : Option String) (roles : List String) (iss aud : String)
      → claims_of (
          some (
            scoped w t roles (record {
              iss = iss;
              aud = aud;
              sub = u;
              sid = sid;
              fid = fid;
              jti = jti;
              iat = iat;
              nbf = nbf;
              exp = exp;
              client_type = client_value c;
              amr = a;
              wid = none;
              wtype = none;
              roles = none;
            })))
        ≡ ok (record {
          user_id = u;
          session_id = sid;
          family_id = fid;
          jti = jti;
          issued_at = iat * second;
          expires_at = exp * second;
          client_type = c;
          assurance = a;
          workspace_id = (scope_of w t roles).0;
          workspace_type = (scope_of w t roles).1;
          roles = (scope_of w t roles).2;
        })
  claims_of-scoped u sid fid jti iat nbf exp ClientType.web a (some w) (some t) roles iss aud = refl
  claims_of-scoped u sid fid jti iat nbf exp ClientType.web a (some w) none roles iss aud = refl
  claims_of-scoped u sid fid jti iat nbf exp ClientType.web a none t roles iss aud = refl
  claims_of-scoped u sid fid jti iat nbf exp ClientType.mobile a (some w) (some t) roles iss aud =
      refl
  claims_of-scoped u sid fid jti iat nbf exp ClientType.mobile a (some w) none roles iss aud = refl
  claims_of-scoped u sid fid jti iat nbf exp ClientType.mobile a none t roles iss aud = refl

  -- A token is verified, from when it was issued until its lifetime in whole seconds is over, as the
  -- claims that it was issued for.
  pub verify-issue :
      (g : Grant) (now later : ℕ)
      → now ≤ later
      → later < (now + provider.access_ttl_seconds * second) / second * second
      → verify provider (issue provider g now).0 later ≡ ok (granted_claims provider g now)
  unfolding verify
  verify-issue g now later le lt = rw (decoded g now later le lt) (
      claims_of-scoped g.user_id g.session_id g.family_id g.jti (now / second) (now / second)
        ((now + provider.access_ttl_seconds * second) / second) g.client_type g.assurance
        g.workspace_id g.workspace_type g.roles provider.issuer provider.audience)

  -- Once the lifetime is over, the token is refused.
  pub verify-issue_expired :
      (g : Grant) (now later : ℕ)
      → now + provider.access_ttl_seconds * second ≤ later
      → verify provider (issue provider g now).0 later ≡ raised invalid_token
  unfolding verify issue
  verify-issue_expired g now later le =
      let (ei, ea, en, ee) =
        scoped_times g.workspace_id g.workspace_type g.roles (unscoped provider g now) in
      rw (
        provider.jwt.decode_expired provider.issuer provider.audience later (payload provider g now)
          (omega arith))
