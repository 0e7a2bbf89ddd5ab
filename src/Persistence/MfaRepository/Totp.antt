-- ===== src/Persistence/MfaRepository/Totp.antt =====
-- infrastructure/persistence/mfa_repository.py: TOTP factors and the step that was used last.
use auth_core.Prelude.{
  ℕ, String, Bool, true, false, ◌&&◌, Option, none, some, List, [], ◌∷◌, ◌++◌, ◌==◌, find_row,
  update_where, any_row,
}
use auth_core.Persistence.Tables.{Database, MfaDevice, FactorType, FactorStatus, encrypted}
use auth_core.Persistence.LoginRepository.{is_active_factor}
use auth_core.Persistence.MfaRepository.Factors.{
  MfaFactor, factor_of, same_factor, is_pending, update_factor, revoked_at_time,
}

abbrev is_pending_totp : ℕ → MfaDevice → Bool
is_pending_totp user_id d =
    d.user_id == user_id && same_factor d.factor_type FactorType.totp && is_pending d.status

abbrev pending_totp : ℕ → List ℕ → String → ℕ → MfaDevice
pending_totp user_id secret label mfa_id = record {
  mfa_id = mfa_id;
  user_id = user_id;
  factor_type = FactorType.totp;
  encrypted_secret = some (encrypted secret);
  status = FactorStatus.pending;
  label = some label;
  verified_at = none;
  revoked_at = none;
  last_totp_step = none;
  last_used_at = none;
}

-- With the key of the new factor.
unfoldable pub create_pending_totp : ℕ → ℕ → List ℕ → String → ℕ → Database → MfaFactor × Database
create_pending_totp now user_id encrypted_secret label mfa_id db =
    let created = pending_totp user_id encrypted_secret label mfa_id in
    (
      factor_of created,
      record db {
        mfa_devices =
            update_where (is_pending_totp user_id) (revoked_at_time now) db.mfa_devices
            ++ created ∷ [];
      },
    )

abbrev activated : ℕ → ℕ → MfaDevice → MfaDevice
activated now accepted_step d = record d {
  status = FactorStatus.active;
  verified_at = some now;
  last_used_at = some now;
  last_totp_step = some accepted_step;
}

abbrev activate_found : ℕ → ℕ → Option MfaDevice → Database → Bool × Database
activate_found now accepted_step none db = (false, db)
activate_found now accepted_step (some d) db =
    (true, update_factor d.mfa_id (activated now accepted_step) db)

unfoldable pub activate_totp : ℕ → ℕ → ℕ → ℕ → Database → Bool × Database
activate_totp now user_id mfa_id accepted_step db =
    activate_found now accepted_step
      (find_row (λ d. is_pending_totp user_id d && d.mfa_id == mfa_id) db.mfa_devices) db

-- `last_totp_step IS NULL`, or `last_totp_step = previous`
abbrev pub same_step : Option ℕ → Option ℕ → Bool
same_step none none = true
same_step (some a) (some b) = a == b
same_step _ _ = false

abbrev pub is_at_step : ℕ → Option ℕ → MfaDevice → Bool
is_at_step mfa_id previous_step d =
    d.mfa_id == mfa_id && is_active_factor d.status && same_step d.last_totp_step previous_step

abbrev pub stepped : ℕ → ℕ → MfaDevice → MfaDevice
stepped now accepted_step d = record d {
  last_totp_step = some accepted_step;
  last_used_at = some now;
}

-- Whether a row was updated.
unfoldable pub advance_totp_step : ℕ → ℕ → Option ℕ → ℕ → Database → Bool × Database
advance_totp_step now mfa_id previous_step accepted_step db = (
  any_row (is_at_step mfa_id previous_step) db.mfa_devices,
  record db {
    mfa_devices =
        update_where (is_at_step mfa_id previous_step) (stepped now accepted_step) db.mfa_devices;
  },
)
