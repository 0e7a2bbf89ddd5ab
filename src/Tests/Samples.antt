-- ===== src/Tests/Samples.antt =====
-- Sample data: one user with one session, whose refresh token has the digest 7.
use auth_core.Prelude.{ℕ, true, none, some, [], ◌∷◌, str_eq, if◌then◌else◌}
use auth_core.Entity.Session.{ClientType, AccessClaims}
use auth_core.Entity.User.{UserState}
use auth_core.Redis.Memory.{memory, nothing}
use auth_core.Security.{RedisSecurityStore}
use auth_core.Security.Keys.{Subject, of_text, of_uuid}
use auth_core.Tokens.{TokenProvider, Grant, issue}
use auth_core.Tokens.Plain.{plain}
use auth_core.Tokens.RoundTrip.{granted_claims}
use auth_core.Persistence.Tables.{
  Database, User, Identity, IdentityProvider, RefreshTokenFamily, RefreshToken, Session,
}
use auth_core.Persistence.SessionRepository.{NewSession, Rotation}
use auth_core.Control.Session.{SessionControl, W, Token, Draw}

abbrev digest : Subject → ℕ
digest (of_text s) = 0
digest (of_uuid id) = id

abbrev pub store : RedisSecurityStore
store = record { client = memory; opaque = digest }

abbrev pub provider : TokenProvider
provider = record {
  jwt = plain;
  issuer = "auth-core";
  audience = "vittavaan";
  access_ttl_seconds = 900;
}

abbrev pub control : SessionControl
control = record {
  redis = store;
  tokens = provider;
  token_hash = λ s. if str_eq s "first" then 7 else 8;
  fingerprint_hash = λ s. 9;
}

abbrev pub user : User
user = record {
  user_id = 5;
  email = some "a@b.c";
  given_name = none;
  family_name = none;
  phone_e164 = none;
  state = UserState.active;
  version = 1;
  anonymized_at = none;
}

abbrev pub identity : Identity
identity = record {
  identity_id = 6;
  user_id = 5;
  provider = IdentityProvider.password;
  provider_subject = "a@b.c";
  password_hash = some "hash";
  verified = true;
  last_used_at = none;
}

abbrev pub family : RefreshTokenFamily
family = record {
  family_id = 1;
  user_id = 5;
  device_fingerprint_hash = 9;
  client_id = ClientType.web;
  created_at = 0;
  absolute_expires_at = 2_592_000_000_000;
  revoked_at = none;
  revocation_reason = none;
}

abbrev pub session : Session
session = record {
  session_id = 2;
  family_id = 1;
  user_id = 5;
  org_id = none;
  access_jti = 4;
  client_id = ClientType.web;
  device_fingerprint_hash = 9;
  ip_address = none;
  created_at = 0;
  last_activity_at = 0;
  expires_at = 86_400_000_000;
  revoked_at = none;
}

abbrev pub token : RefreshToken
token = record {
  refresh_token_id = 3;
  family_id = 1;
  token_hash = 7;
  generation = 0;
  issued_at = 0;
  used_at = none;
  revoked_at = none;
  expires_at = 2_592_000_000_000;
}

abbrev pub used_token : RefreshToken
used_token = record token { used_at = some 1_000_000; revoked_at = some 1_000_000 }

abbrev tables : RefreshToken → Database
tables t = record {
  users = user ∷ [];
  identities = identity ∷ [];
  password_history = [];
  ephemeral_tokens = [];
  mfa_devices = [];
  webauthn_credentials = [];
  trusted_devices = [];
  families = family ∷ [];
  tokens = t ∷ [];
  sessions = session ∷ [];
  governed_requests = [];
  staff_roles = [];
  contact_changes = [];
  audit_logs = [];
}

abbrev pub database : Database
database = tables token

abbrev pub used_database : Database
used_database = tables used_token

abbrev pub world : W control
world = record { redis = nothing; database = database }

abbrev pub used_world : W control
used_world = record { redis = nothing; database = used_database }

abbrev pub grant : Grant
grant = record {
  user_id = 5;
  session_id = 2;
  family_id = 1;
  jti = 4;
  client_type = ClientType.web;
  assurance = "otp" ∷ [];
  workspace_id = none;
  workspace_type = none;
  roles = [];
}

abbrev pub claims : AccessClaims
claims = granted_claims provider grant 1_500_000

abbrev pub access_token : Token control
access_token = (issue provider grant 1_500_000).0

abbrev pub rotation : Rotation
rotation = record {
  token_hash = 7;
  replacement_hash = 8;
  replacement_expires_at = 2_592_001_000_000;
  new_access_jti = 14;
  client_type = ClientType.web;
  device_fingerprint_hash = 9;
  idle_timeout_seconds = 900;
  refresh_token_id = 13;
}

abbrev pub new_session : NewSession
new_session = record {
  user_id = 5;
  client_type = ClientType.mobile;
  device_fingerprint_hash = 10;
  ip_address = none;
  refresh_token_hash = 17;
  access_jti = 24;
  family_expires_at = 2_592_001_000_000;
  session_expires_at = 86_401_000_000;
  refresh_expires_at = 2_592_001_000_000;
  family_id = 21;
  session_id = 22;
  refresh_token_id = 23;
}

abbrev pub draw : Draw
draw = record {
  refresh_token = "second";
  csrf_token = "csrf";
  access_jti = 14;
  family_id = 11;
  session_id = 12;
  refresh_token_id = 13;
}
