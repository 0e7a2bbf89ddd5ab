-- ===== src/Persistence/LoginRepository.antt =====
-- infrastructure/persistence/login_repository.py, but `provision_oidc`. A device's row is known by its
-- user and fingerprint, which are unique together. What PostgreSQL and its driver do with addresses and
-- with texts that ignore case is a parameter.
use auth_core.Prelude.{
  ℕ, String, Bool, true, false, not, ◌&&◌, ◌||◌, Option, none, some, List, [], ◌∷◌, ◌++◌, ◌==◌,
  str_eq, is_none, is_some, if◌then◌else◌, rows_where, find_row, update_where,
}
use auth_core.Entity.User.{TextMethods, normalize_email, state_is_active}
use auth_core.Entity.Login.{LoginIdentity, DeviceSignals}
use auth_core.Entity.Json.{Members}
use auth_core.Persistence.Tables.{
  Database, User, Identity, IdentityProvider, google, apple, microsoft, MfaDevice, FactorType,
  FactorStatus, TrustedDevice, TrustState,
}

abbrev pub same_provider : IdentityProvider → IdentityProvider → Bool
same_provider IdentityProvider.password IdentityProvider.password = true
same_provider google google = true
same_provider apple apple = true
same_provider microsoft microsoft = true
same_provider IdentityProvider.phone IdentityProvider.phone = true
same_provider _ _ = false

-- The identity of a provider's subject, whose pair is unique, with its user.
abbrev login_identity : Identity → Option User → Option LoginIdentity
login_identity i none = none
login_identity i (some u) =
    if is_none u.anonymized_at
    then some (record {
      user_id = u.user_id;
      state = u.state;
      password_hash = i.password_hash;
      verified = i.verified;
      has_phone = is_some u.phone_e164;
    })
    else none

unfoldable pub identity : IdentityProvider → String → Database → Option LoginIdentity
identity provider subject db =
    elim (find_row (λ i. same_provider i.provider provider && str_eq i.provider_subject subject)
      db.identities) [
        | none ↦ none
        | some i ↦ login_identity i (find_row (λ u. u.user_id == i.user_id) db.users)
      ]

unfoldable pub password_identity : TextMethods → String → Database → Option LoginIdentity
password_identity texts email = identity IdentityProvider.password (normalize_email texts email)

unfoldable pub phone_identity : String → Database → Option LoginIdentity
phone_identity phone_e164 = identity IdentityProvider.phone phone_e164

abbrev active_identity : User → LoginIdentity
active_identity u = record {
  user_id = u.user_id;
  state = u.state;
  password_hash = none;
  verified = state_is_active u.state;
  has_phone = is_some u.phone_e164;
}

-- `citext_eq` is the comparison of the column's type.
abbrev is_email : (String → String → Bool) → String → User → Bool
is_email citext_eq email u = elim u.email [
  | none ↦ false
  | some e ↦ citext_eq e email && is_none u.anonymized_at
]

unfoldable pub active_user_by_email :
    (String → String → Bool) → TextMethods → String → Database → Option LoginIdentity
active_user_by_email citext_eq texts email db =
    elim (find_row (is_email citext_eq (normalize_email texts email)) db.users) [
      | none ↦ none
      | some u ↦ some (active_identity u)
    ]

-- `ip_address`, where the empty text counts as none.
abbrev pub present : Option String → Option String
present none = none
present (some s) = if str_eq s "" then none else some s

abbrev pub differs : Option String → Option String → Bool
differs (some a) (some b) = not (str_eq a b)
differs _ _ = false

abbrev pub is_trusted : TrustState → Bool
is_trusted TrustState.trusted = true
is_trusted _ = false

abbrev pub is_device : ℕ → ℕ → TrustedDevice → Bool
is_device user_id fingerprint_hash d =
    d.user_id == user_id && d.fingerprint_hash == fingerprint_hash

-- What the column of an address holds after a write, as `str` prints it: `inet` answers none for a
-- text that is no address, and then the write raises.
abbrev pub stored : (String → Option String) → Option String → Option (Option String)
stored inet none = some none
stored inet (some s) = elim (inet s) [ none ↦ none | some address ↦ some (some address) ]

abbrev pub new_device : ℕ → ℕ → ℕ → Option String → TrustedDevice
new_device now user_id fingerprint_hash ip_address = record {
  user_id = user_id;
  fingerprint_hash = fingerprint_hash;
  trust_state = TrustState.unknown;
  last_ip_address = ip_address;
  last_seen_at = now;
}

abbrev pub signals_of : Option String → Option TrustedDevice → DeviceSignals
signals_of ip_address none = record { known = false; trusted = false; ip_changed = false }
signals_of ip_address (some d) = record {
  known = true;
  trusted = is_trusted d.trust_state;
  ip_changed = differs d.last_ip_address (present ip_address);
}

abbrev pub seen_again : ℕ → Option String → TrustedDevice → TrustedDevice
seen_again now ip_address d = record d { last_ip_address = ip_address; last_seen_at = now }

-- A device that is seen for the first time gets a row at once.
abbrev pub seen_devices :
    ℕ → ℕ → ℕ → Option String → Option TrustedDevice → List TrustedDevice → List TrustedDevice
seen_devices now user_id fingerprint_hash ip_address none ds =
    ds ++ new_device now user_id fingerprint_hash ip_address ∷ []
seen_devices now user_id fingerprint_hash ip_address (some d) ds =
    update_where (is_device user_id fingerprint_hash) (seen_again now ip_address) ds

-- None where the transaction raises.
unfoldable pub device_signals :
    (String → Option String)
    → ℕ
    → ℕ
    → ℕ
    → Option String
    → Database
    → Option (DeviceSignals × Database)
device_signals inet now user_id fingerprint_hash ip_address db =
    let device = find_row (is_device user_id fingerprint_hash) db.trusted_devices in
    elim (stored inet ip_address) [
      | none ↦ none
      | some address ↦ some (
        signals_of ip_address device,
        record db {
          trusted_devices =
              seen_devices now user_id fingerprint_hash address device db.trusted_devices;
        },
      )
    ]

abbrev provider_methods : IdentityProvider → List String
provider_methods IdentityProvider.password = "password" ∷ "email_otp" ∷ []
provider_methods IdentityProvider.phone = "sms_otp" ∷ []
provider_methods google = "google" ∷ []
provider_methods apple = "apple" ∷ []
provider_methods microsoft = "microsoft" ∷ []

abbrev factor_method : FactorType → String
factor_method FactorType.email = "email_otp"
factor_method FactorType.sms = "sms_otp"
factor_method FactorType.backup_codes = "backup_code"
factor_method FactorType.totp = "totp"
factor_method FactorType.passkey = "passkey"

abbrev pub is_active_factor : FactorStatus → Bool
is_active_factor FactorStatus.active = true
is_active_factor _ = false

abbrev has_text : String → List String → Bool
has_text s [] = false
has_text s (t ∷ ts) = str_eq t s || has_text s ts

abbrev offered_by_identity : ℕ → String → List Identity → Bool
offered_by_identity user_id m [] = false
offered_by_identity user_id m (i ∷ is) =
    (i.user_id == user_id && i.verified && has_text m (provider_methods i.provider))
    || offered_by_identity user_id m is

abbrev offered_by_factor : ℕ → String → List MfaDevice → Bool
offered_by_factor user_id m [] = false
offered_by_factor user_id m (d ∷ ds) =
    (d.user_id == user_id && is_active_factor d.status && str_eq (factor_method d.factor_type) m)
    || offered_by_factor user_id m ds

-- Every method there is, in the order of `sorted`.
abbrev all_methods : List String
all_methods =
    "apple" ∷ "backup_code" ∷ "email_otp" ∷ "google" ∷ "microsoft" ∷ "passkey" ∷ "password"
    ∷ "sms_otp" ∷ "totp" ∷ []

unfoldable pub fallback_methods : ℕ → Database → List String
fallback_methods user_id db =
    rows_where
      (λ m.
        offered_by_identity user_id m db.identities || offered_by_factor user_id m db.mfa_devices)
      all_methods

abbrev is_password_of : ℕ → Identity → Bool
is_password_of user_id i =
    i.user_id == user_id && same_provider i.provider IdentityProvider.password

abbrev put_hash : String → Option Identity → List Identity → List Identity
put_hash password_hash none is = is
put_hash password_hash (some identity) is =
    update_where (λ i. i.identity_id == identity.identity_id)
      (λ i. record i { password_hash = some password_hash }) is

unfoldable pub update_password_hash : ℕ → String → Database → Database
update_password_hash user_id password_hash db = record db {
  identities =
      put_hash password_hash (find_row (is_password_of user_id) db.identities) db.identities;
}

unfoldable pub audit : String → String → ℕ → Option ℕ → Members → Database → Database
audit event_type outcome correlation_id subject_user_id metadata db = record db {
  audit_logs =
      db.audit_logs
      ++ record {
        actor_user_id = none;
        subject_user_id = subject_user_id;
        event_type = event_type;
        outcome = outcome;
        correlation_id = correlation_id;
        metadata = metadata;
      }
        ∷ [];
}
