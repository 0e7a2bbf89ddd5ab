-- ===== src/Persistence/SessionRepository/Rotate.antt =====
-- infrastructure/persistence/session_repository.py: `_revoke_locked` and `rotate_refresh_token`.
use auth_core.Prelude.{
  ℕ, ◌+◌, ◌*◌, min, String, Bool, not, ◌&&◌, ◌||◌, Option, none, some, [], ◌∷◌, ◌++◌, ◌==◌, leb,
  is_none, is_some, or_else, if◌then◌else◌, find_row, update_where,
}
use auth_core.Entity.Session.{
  ClientType, same_client, RevocationResult, RotationStatus, rotated, invalid, reused, expired,
  RotationResult,
}
use auth_core.Redis.{second}
use auth_core.Persistence.Tables.{Database, RefreshTokenFamily, RefreshToken, Session}
use auth_core.Persistence.SessionRepository.Create.{family_of, revocation, as_record}

-- `_revoke_locked`: what is revoked already keeps its time and its reason.
unfoldable pub revoke_locked : ℕ → String → RefreshTokenFamily × Session → Database → Database
revoke_locked now reason (family, active) db = record db {
  families =
      update_where (λ f. f.family_id == family.family_id)
        (λ f. record f {
          revoked_at = some (or_else f.revoked_at now);
          revocation_reason = some (or_else f.revocation_reason reason);
        })
        db.families;
  sessions =
      update_where (λ s. s.session_id == active.session_id)
        (λ s. record s { revoked_at = some (or_else s.revoked_at now) }) db.sessions;
  tokens =
      update_where (λ t. t.family_id == family.family_id && is_none t.revoked_at)
        (λ t. record t { revoked_at = some now }) db.tokens;
}

-- The row of a token's hash with its family and its session; each of the columns is unique.
abbrev pub with_session :
    RefreshToken
    → RefreshTokenFamily
    → Option Session
    → Option (RefreshToken × RefreshTokenFamily × Session)
with_session t f none = none
with_session t f (some s) = some (t, f, s)

abbrev pub with_family :
    Database
    → RefreshToken
    → Option RefreshTokenFamily
    → Option (RefreshToken × RefreshTokenFamily × Session)
with_family db t none = none
with_family db t (some f) =
    with_session t f (find_row (λ s. s.family_id == f.family_id) db.sessions)

abbrev pub with_token :
    Database → Option RefreshToken → Option (RefreshToken × RefreshTokenFamily × Session)
with_token db none = none
with_token db (some t) = with_family db t (family_of db.families t.family_id)

unfoldable pub token_row : ℕ → Database → Option (RefreshToken × RefreshTokenFamily × Session)
token_row token_hash db = with_token db (find_row (λ t. t.token_hash == token_hash) db.tokens)

-- The arguments of `rotate_refresh_token`, and the UUID of the new row.
pub record Rotation : Type 0 where
  pub token_hash : ℕ
  pub replacement_hash : ℕ
  pub replacement_expires_at : ℕ
  pub new_access_jti : ℕ
  pub client_type : ClientType
  pub device_fingerprint_hash : ℕ
  pub idle_timeout_seconds : ℕ
  pub refresh_token_id : ℕ

abbrev pub any_revoked : RefreshToken → RefreshTokenFamily → Session → Bool
any_revoked t f s = is_some t.revoked_at || is_some f.revoked_at || is_some s.revoked_at

abbrev pub any_expired : ℕ → ℕ → RefreshToken → RefreshTokenFamily → Session → Bool
any_expired now idle_timeout_seconds t f s =
    leb t.expires_at now
    || leb f.absolute_expires_at now
    || leb s.expires_at now
    || leb (s.last_activity_at + idle_timeout_seconds * second) now

abbrev pub other_client : Rotation → RefreshTokenFamily → Bool
other_client r f =
    not (same_client f.client_id r.client_type)
    || not (f.device_fingerprint_hash == r.device_fingerprint_hash)

abbrev pub replacement : ℕ → Rotation → RefreshToken → RefreshTokenFamily → RefreshToken
replacement now r t f = record {
  refresh_token_id = r.refresh_token_id;
  family_id = f.family_id;
  token_hash = r.replacement_hash;
  generation = t.generation + 1;
  issued_at = now;
  used_at = none;
  revoked_at = none;
  expires_at = min r.replacement_expires_at f.absolute_expires_at;
}

abbrev pub touched : ℕ → Rotation → Session → Session
touched now r s = record s { access_jti = r.new_access_jti; org_id = none; last_activity_at = now }

-- The writes of a rotation that is granted.
unfoldable pub replace_token :
    ℕ → Rotation → RefreshToken × RefreshTokenFamily × Session → Database → Database
replace_token now r (token, family, active) db = record db {
  tokens =
      update_where (λ t. t.refresh_token_id == token.refresh_token_id)
        (λ t. record t { used_at = some now; revoked_at = some now }) db.tokens
      ++ replacement now r token family ∷ [];
  sessions = update_where (λ s. s.session_id == active.session_id) (touched now r) db.sessions;
}

abbrev pub refusal : RotationStatus → Option RevocationResult → RotationResult
refusal status revoked = record { status = status; rotated_session = none; revoked = revoked }

unfoldable pub rotate_row :
    ℕ
    → Rotation
    → RefreshToken × RefreshTokenFamily × Session
    → Database
    → RotationResult × Database
rotate_row now r (token, family, active) db =
    let revoked = some (revocation (family, active)) in
    if is_some token.used_at
    then (refusal reused revoked, revoke_locked now "token_reuse" (family, active) db)
    else if any_revoked token family active
    then (refusal invalid none, db)
    else if any_expired now r.idle_timeout_seconds token family active
    then (refusal expired revoked, revoke_locked now "expired" (family, active) db)
    else if other_client r family
    then (
      refusal RotationStatus.client_mismatch revoked,
      revoke_locked now "client_mismatch" (family, active) db,
    )
    else (
      record {
        status = rotated;
        rotated_session = some (as_record (touched now r active));
        revoked = revoked;
      },
      replace_token now r (token, family, active) db,
    )

unfoldable pub rotate_refresh_token : ℕ → Rotation → Database → RotationResult × Database
rotate_refresh_token now r db = elim (token_row r.token_hash db) [
  | none ↦ (refusal invalid none, db)
  | some row ↦ rotate_row now r row db
]
