-- ===== src/Persistence/MfaRepository/Factors.antt =====
-- infrastructure/persistence/mfa_repository.py: the profile of a user, the factors, and the identity that
-- a resolved collision links. The row of a factor is known by its primary key.
use auth_core.Prelude.{
  ℕ, String, Bool, true, false, ◌&&◌, ◌||◌, Option, none, some, List, [], ◌∷◌, ◌++◌, map, ◌==◌,
  str_eq, is_some, is_none, if◌then◌else◌, rows_where, find_row, update_where, any_row,
}
use auth_core.Entity.Mfa.{MfaUserProfile}
use auth_core.Persistence.Tables.{
  Database, User, Identity, IdentityProvider, google, apple, microsoft, MfaDevice, FactorType,
  FactorStatus, StoredSecret,
}
use auth_core.Persistence.LoginRepository.{same_provider, is_active_factor}

-- entity/mfa.py
pub record MfaFactor : Type 0 where
  pub mfa_id : ℕ
  pub user_id : ℕ
  pub factor_type : FactorType
  pub status : FactorStatus
  pub label : Option String
  pub encrypted_secret : Option StoredSecret
  pub last_totp_step : Option ℕ

-- `_factor`
abbrev pub factor_of : MfaDevice → MfaFactor
factor_of d = record {
  mfa_id = d.mfa_id;
  user_id = d.user_id;
  factor_type = d.factor_type;
  status = d.status;
  label = d.label;
  encrypted_secret = d.encrypted_secret;
  last_totp_step = d.last_totp_step;
}

abbrev pub same_factor : FactorType → FactorType → Bool
same_factor FactorType.totp FactorType.totp = true
same_factor FactorType.sms FactorType.sms = true
same_factor FactorType.email FactorType.email = true
same_factor FactorType.passkey FactorType.passkey = true
same_factor FactorType.backup_codes FactorType.backup_codes = true
same_factor _ _ = false

abbrev pub is_pending : FactorStatus → Bool
is_pending FactorStatus.pending = true
is_pending _ = false

abbrev pub factor_row : ℕ → Database → Option MfaDevice
factor_row mfa_id db = find_row (λ d. d.mfa_id == mfa_id) db.mfa_devices

-- Rewrites the factor with this primary key.
abbrev pub update_factor : ℕ → (MfaDevice → MfaDevice) → Database → Database
update_factor mfa_id f db = record db {
  mfa_devices = update_where (λ d. d.mfa_id == mfa_id) f db.mfa_devices;
}

abbrev pub revoked_at_time : ℕ → MfaDevice → MfaDevice
revoked_at_time now d = record d { status = FactorStatus.revoked; revoked_at = some now }

-- `{"password", "google", "apple", "microsoft"}`
abbrev gives_email : IdentityProvider → Bool
gives_email IdentityProvider.password = true
gives_email google = true
gives_email apple = true
gives_email microsoft = true
gives_email IdentityProvider.phone = false

abbrev profile_of : List Identity → User → Option MfaUserProfile
profile_of verified_identities u =
    if is_none u.anonymized_at
    then some (record {
      user_id = u.user_id;
      state = u.state;
      email = if any_row (λ i. gives_email i.provider) verified_identities then u.email else none;
      phone_e164 =
          if any_row (λ i. same_provider i.provider IdentityProvider.phone) verified_identities
          then u.phone_e164
          else none;
    })
    else none

unfoldable pub user_profile : ℕ → Database → Option MfaUserProfile
user_profile user_id db = elim (find_row (λ u. u.user_id == user_id) db.users) [
  | none ↦ none
  | some u ↦ profile_of (rows_where (λ i. i.user_id == user_id && i.verified) db.identities) u
]

unfoldable pub password_hash : ℕ → Database → Option String
password_hash user_id db =
    elim (find_row
      (λ i.
        i.user_id == user_id && same_provider i.provider IdentityProvider.password && i.verified)
      db.identities) [ none ↦ none | some i ↦ i.password_hash ]

abbrev pub is_active_of : ℕ → MfaDevice → Bool
is_active_of user_id d = d.user_id == user_id && is_active_factor d.status

unfoldable pub active_factors : ℕ → Database → List MfaFactor
active_factors user_id db = map factor_of (rows_where (is_active_of user_id) db.mfa_devices)

unfoldable pub factor : ℕ → ℕ → Database → Option MfaFactor
factor user_id mfa_id db =
    elim (find_row (λ d. d.user_id == user_id && d.mfa_id == mfa_id) db.mfa_devices) [
      | none ↦ none
      | some d ↦ some (factor_of d)
    ]

abbrev revoke_found : ℕ → Option MfaDevice → Database → Bool × Database
revoke_found now none db = (false, db)
revoke_found now (some d) db = (true, update_factor d.mfa_id (revoked_at_time now) db)

unfoldable pub revoke_factor : ℕ → ℕ → ℕ → Database → Bool × Database
revoke_factor now user_id mfa_id db =
    revoke_found now
      (find_row (λ d. d.user_id == user_id && d.mfa_id == mfa_id && is_active_factor d.status)
        db.mfa_devices)
      db

-- The insert fails where the pair of provider and subject is taken, since it is unique, and for the
-- provider `password`, whose identities need a hash.
unfoldable pub link_oidc_identity : ℕ → IdentityProvider → String → ℕ → Database → Bool × Database
link_oidc_identity user_id provider subject identity_id db =
    if same_provider provider IdentityProvider.password
      || is_some (
          find_row (λ i. same_provider i.provider provider && str_eq i.provider_subject subject)
            db.identities)
    then (false, db)
    else (
      true,
      record db {
        identities =
            db.identities
            ++ record {
              identity_id = identity_id;
              user_id = user_id;
              provider = provider;
              provider_subject = subject;
              password_hash = none;
              verified = true;
              last_used_at = none;
            }
              ∷ [];
      },
    )
