-- ===== src/Persistence/MfaRepository/Passkeys.antt =====
-- infrastructure/persistence/mfa_repository.py: passkeys, each a factor and its credential.
use auth_core.Prelude.{
  ℕ, String, Bool, true, false, ◌&&◌, Option, none, some, List, [], ◌∷◌, ◌++◌, ◌==◌, if◌then◌else◌,
  find_row, update_where, any_row,
}
use auth_core.Entity.Mfa.{StoredPasskey}
use auth_core.Persistence.Tables.{Database, MfaDevice, WebAuthnCredential, FactorType, FactorStatus}
use auth_core.Persistence.LoginRepository.{is_active_factor}
use auth_core.Persistence.MfaRepository.Factors.{factor_row}

-- `_passkey`
abbrev passkey_of : WebAuthnCredential → MfaDevice → StoredPasskey
passkey_of c d = record {
  credential_id = c.credential_id;
  mfa_id = d.mfa_id;
  user_id = d.user_id;
  public_key = c.public_key;
  sign_count = c.sign_count;
  transports = c.transports;
  backup_eligible = c.backup_eligible;
  backup_state = c.backup_state;
}

-- A credential joined with its factor, where that is active.
abbrev active_passkey : Database → WebAuthnCredential → Option StoredPasskey
active_passkey db c = elim (factor_row c.mfa_id db) [
  | none ↦ none
  | some d ↦ if is_active_factor d.status then some (passkey_of c d) else none
]

abbrev pub is_owned : ℕ → Option StoredPasskey → Bool
is_owned user_id none = false
is_owned user_id (some p) = p.user_id == user_id

abbrev with_passkey : Option StoredPasskey → List StoredPasskey → List StoredPasskey
with_passkey none ps = ps
with_passkey (some p) ps = p ∷ ps

abbrev passkeys_among : Database → ℕ → List WebAuthnCredential → List StoredPasskey
passkeys_among db user_id [] = []
passkeys_among db user_id (c ∷ cs) =
    let rest = passkeys_among db user_id cs in
    if is_owned user_id (active_passkey db c) then with_passkey (active_passkey db c) rest else rest

unfoldable pub passkeys : ℕ → Database → List StoredPasskey
passkeys user_id db = passkeys_among db user_id db.webauthn_credentials

-- The credential's id is its primary key.
unfoldable pub passkey : ℕ → Database → Option StoredPasskey
passkey credential_id db =
    elim (find_row (λ c. c.credential_id == credential_id) db.webauthn_credentials) [
      | none ↦ none
      | some c ↦ active_passkey db c
    ]

-- What the registration of a credential yields.
pub record Registration : Type 0 where
  pub credential_id : ℕ
  pub public_key : ℕ
  pub sign_count : ℕ
  pub transports : List String
  pub backup_eligible : Bool
  pub backup_state : Bool

abbrev passkey_factor : ℕ → ℕ → String → ℕ → MfaDevice
passkey_factor now user_id label mfa_id = record {
  mfa_id = mfa_id;
  user_id = user_id;
  factor_type = FactorType.passkey;
  encrypted_secret = none;
  status = FactorStatus.active;
  label = some label;
  verified_at = some now;
  revoked_at = none;
  last_totp_step = none;
  last_used_at = none;
}

abbrev credential_row : Registration → ℕ → WebAuthnCredential
credential_row r mfa_id = record {
  credential_id = r.credential_id;
  mfa_id = mfa_id;
  public_key = r.public_key;
  sign_count = r.sign_count;
  transports = r.transports;
  backup_eligible = r.backup_eligible;
  backup_state = r.backup_state;
}

-- Whether both rows were inserted: a credential id that is taken fails the transaction.
unfoldable pub create_passkey : ℕ → ℕ → String → Registration → ℕ → Database → Bool × Database
create_passkey now user_id label r mfa_id db =
    if any_row (λ c. c.credential_id == r.credential_id) db.webauthn_credentials
    then (false, db)
    else (
      true,
      record db {
        mfa_devices = db.mfa_devices ++ passkey_factor now user_id label mfa_id ∷ [];
        webauthn_credentials = db.webauthn_credentials ++ credential_row r mfa_id ∷ [];
      },
    )

abbrev pub is_at_count : ℕ → ℕ → WebAuthnCredential → Bool
is_at_count credential_id previous_count c =
    c.credential_id == credential_id && c.sign_count == previous_count

unfoldable pub update_passkey_counter : ℕ → ℕ → ℕ → Bool → Database → Bool × Database
update_passkey_counter credential_id previous_count new_count backup_state db = (
  any_row (is_at_count credential_id previous_count) db.webauthn_credentials,
  record db {
    webauthn_credentials =
        update_where (is_at_count credential_id previous_count)
          (λ c. record c { sign_count = new_count; backup_state = backup_state })
          db.webauthn_credentials;
  },
)
