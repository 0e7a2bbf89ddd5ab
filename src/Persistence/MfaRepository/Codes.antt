-- ===== src/Persistence/MfaRepository/Codes.antt =====
-- infrastructure/persistence/mfa_repository.py: backup codes, of which only digests are stored.
use auth_core.Prelude.{
  ℕ, Bool, true, false, ◌&&◌, Option, none, some, List, [], ◌∷◌, ◌++◌, ◌==◌, if◌then◌else◌,
  find_row,
}
use auth_core.Persistence.Tables.{
  Database, MfaDevice, FactorType, FactorStatus, StoredSecret, encrypted, code_hashes,
}
use auth_core.Persistence.LoginRepository.{is_active_factor}
use auth_core.Persistence.MfaRepository.Factors.{same_factor, update_factor}

abbrev pub is_backup : ℕ → MfaDevice → Bool
is_backup user_id d =
    d.user_id == user_id
    && same_factor d.factor_type FactorType.backup_codes
    && is_active_factor d.status

abbrev pub backup_row : ℕ → Database → Option MfaDevice
backup_row user_id db = find_row (is_backup user_id) db.mfa_devices

abbrev new_backup : ℕ → ℕ → List ℕ → ℕ → MfaDevice
new_backup now user_id hashes mfa_id = record {
  mfa_id = mfa_id;
  user_id = user_id;
  factor_type = FactorType.backup_codes;
  encrypted_secret = some (code_hashes hashes);
  status = FactorStatus.active;
  label = some "Recovery codes";
  verified_at = some now;
  revoked_at = none;
  last_totp_step = none;
  last_used_at = none;
}

abbrev store_found : ℕ → ℕ → List ℕ → ℕ → Option MfaDevice → Database → Database
store_found now user_id hashes mfa_id none db = record db {
  mfa_devices = db.mfa_devices ++ new_backup now user_id hashes mfa_id ∷ [];
}
store_found now user_id hashes mfa_id (some d) db =
    update_factor d.mfa_id
      (λ x. record x { encrypted_secret = some (code_hashes hashes); last_used_at = none }) db

unfoldable pub store_backup_codes : ℕ → ℕ → List ℕ → ℕ → Database → Database
store_backup_codes now user_id hashes mfa_id db =
    store_found now user_id hashes mfa_id (backup_row user_id db) db

abbrev pub has_hash : ℕ → List ℕ → Bool
has_hash h [] = false
has_hash h (x ∷ xs) = if x == h then true else has_hash h xs

-- `hashes.remove(match)`: the first that is equal.
abbrev pub remove : ℕ → List ℕ → List ℕ
remove h [] = []
remove h (x ∷ xs) = let rest = remove h xs in if x == h then xs else x ∷ rest

-- The row with the codes that are left, which is revoked with the last one.
abbrev pub left_over : ℕ → List ℕ → MfaDevice → MfaDevice
left_over now [] d = record d {
  encrypted_secret = some (code_hashes []);
  last_used_at = some now;
  status = FactorStatus.revoked;
  revoked_at = some now;
}
left_over now (h ∷ hs) d = record d {
  encrypted_secret = some (code_hashes (h ∷ hs));
  last_used_at = some now;
}

-- The digests of a row of backup codes. A row of this type holds nothing else.
abbrev pub hashes_of : Option StoredSecret → List ℕ
hashes_of (some (code_hashes hs)) = hs
hashes_of (some (encrypted bytes)) = []
hashes_of none = []

abbrev consume_found : ℕ → ℕ → Option MfaDevice → Database → Bool × Database
consume_found now candidate_hash none db = (false, db)
consume_found now candidate_hash (some d) db =
    if has_hash candidate_hash (hashes_of d.encrypted_secret)
    then (
      true,
      update_factor d.mfa_id (left_over now (remove candidate_hash (hashes_of d.encrypted_secret)))
          db,
    )
    else (false, db)

unfoldable pub consume_backup_code : ℕ → ℕ → ℕ → Database → Bool × Database
consume_backup_code now user_id candidate_hash db =
    consume_found now candidate_hash (backup_row user_id db) db
