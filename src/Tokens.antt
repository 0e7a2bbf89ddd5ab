-- ===== src/Tokens.antt =====
-- infrastructure/security/tokens.py: LocalRS256TokenProvider. PyJWT with its keys is the parameter
-- `Jwt`; its claims are whole seconds, so `issue` rounds down and `verify` reads whole seconds.
-- PyJWT reads the clock itself, and the source drops the argument `now` of `verify`: here it is that
-- clock.
pub mod RoundTrip
pub mod Plain
use auth_core.Prelude.{
  ℕ, ◌+◌, ◌*◌, ◌/◌, ◌≤◌, ◌<◌, ◌≡◌, String, Bool, true, false, Option, none, some, List, [], ◌∷◌,
  str_eq, if◌then◌else◌,
}
use auth_core.Prelude.Action.{Outcome, ok, raised}
use auth_core.Entity.Session.{ClientType, client_value, SessionError, token_invalid, AccessClaims}
use auth_core.Redis.{second}

-- The claims of a token. `none` stands for a claim that is not there.
pub record Payload : Type 0 where
  pub iss : String
  pub aud : String
  pub sub : ℕ
  pub sid : ℕ
  pub fid : ℕ
  pub jti : ℕ
  pub iat : ℕ
  pub nbf : ℕ
  pub exp : ℕ
  pub client_type : String
  pub amr : List String
  pub wid : Option ℕ
  pub wtype : Option String
  pub roles : Option (List String)

-- The text of a signed token is a type of the library's own, `Token`.
-- `jwt.encode` with the private key, and `jwt.decode` with the public one: it raises, here `none`,
-- unless the signature, the issuer, the audience and the times are right.
pub record Jwt : Type 1 where
  pub Token : Type 0
  pub encode : Payload → Token
  pub decode : String → String → ℕ → Token → Option Payload
  pub decode_encode :
      (issuer audience : String) (now : ℕ) (p : Payload)
      → p.iss ≡ issuer
      → p.aud ≡ audience
      → p.nbf * second ≤ now
      → now < p.exp * second
      → decode issuer audience now (encode p) ≡ some p
  pub decode_expired :
      (issuer audience : String) (now : ℕ) (p : Payload)
      → p.exp * second ≤ now
      → decode issuer audience now (encode p) ≡ none

pub record TokenProvider : Type 1 where
  pub jwt : Jwt
  pub issuer : String
  pub audience : String
  pub access_ttl_seconds : ℕ

-- The arguments of `issue`.
pub record Grant : Type 0 where
  pub user_id : ℕ
  pub session_id : ℕ
  pub family_id : ℕ
  pub jti : ℕ
  pub client_type : ClientType
  pub assurance : List String
  pub workspace_id : Option ℕ
  pub workspace_type : Option String
  pub roles : List String

-- `if workspace_id is not None and workspace_type is not None`
abbrev pub scoped : Option ℕ → Option String → List String → Payload → Payload
scoped (some wid) (some wtype) roles p = record p {
  wid = some wid;
  wtype = some wtype;
  roles = some roles;
}
scoped _ _ roles p = p

-- `ClientType(text)`; none for a ValueError.
abbrev pub client_of : String → Option ClientType
client_of s =
    if str_eq s "WEB"
    then some ClientType.web
    else if str_eq s "MOBILE"
    then some ClientType.mobile
    else none

-- `str(payload["wtype"]) if payload.get("wtype") else None`
abbrev pub non_empty : Option String → Option String
non_empty none = none
non_empty (some s) = if str_eq s "" then none else some s

abbrev pub default_list : Option (List String) → List String
default_list none = []
default_list (some l) = l

abbrev pub invalid_token : SessionError
invalid_token = record {
  code = token_invalid;
  message = "The access token is invalid or expired.";
  status_code = 401;
}

abbrev pub claims_with : Payload → ClientType → AccessClaims
claims_with p client = record {
  user_id = p.sub;
  session_id = p.sid;
  family_id = p.fid;
  jti = p.jti;
  issued_at = p.iat * second;
  expires_at = p.exp * second;
  client_type = client;
  assurance = p.amr;
  workspace_id = p.wid;
  workspace_type = non_empty p.wtype;
  roles = default_list p.roles;
}

abbrev pub claims_of : Option Payload → Outcome SessionError AccessClaims
claims_of none = raised invalid_token
claims_of (some p) = elim (client_of p.client_type) [
  | none ↦ raised invalid_token
  | some client ↦ ok (claims_with p client)
]

module _ (provider : TokenProvider) where
  abbrev pub unscoped : Grant → ℕ → Payload
  unscoped g now = record {
    iss = provider.issuer;
    aud = provider.audience;
    sub = g.user_id;
    sid = g.session_id;
    fid = g.family_id;
    jti = g.jti;
    iat = now / second;
    nbf = now / second;
    exp = (now + provider.access_ttl_seconds * second) / second;
    client_type = client_value g.client_type;
    amr = g.assurance;
    wid = none;
    wtype = none;
    roles = none;
  }

  abbrev pub payload : Grant → ℕ → Payload
  payload g now = scoped g.workspace_id g.workspace_type g.roles (unscoped g now)

  unfoldable pub issue : Grant → ℕ → provider.jwt.Token × ℕ
  issue g now = (provider.jwt.encode (payload g now), now + provider.access_ttl_seconds * second)

  -- `now` is the clock that PyJWT reads.
  unfoldable pub verify : provider.jwt.Token → ℕ → Outcome SessionError AccessClaims
  verify token now = claims_of (provider.jwt.decode provider.issuer provider.audience now token)
