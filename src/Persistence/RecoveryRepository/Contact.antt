-- ===== src/Persistence/RecoveryRepository/Contact.antt =====
-- infrastructure/persistence/recovery_repository.py: changing an email address or a phone number.
use auth_core.Prelude.{
  ℕ, ◌+◌, String, Bool, true, false, not, ◌&&◌, ◌||◌, Option, none, some, [], ◌∷◌, ◌++◌, ◌==◌,
  str_eq, leb, is_none, is_some, or_else, if◌then◌else◌, find_row, update_where, any_row,
}
use auth_core.Prelude.Action.{pure, raise_if, gets, modify, atomic, ◌>>=◌, ◌>>◌}
use auth_core.Entity.User.{state_is_active}
use auth_core.Entity.Recovery.{
  RecoveryError, contact_conflict, ContactType, email, phone, ContactProof, old_contact,
  new_contact, ContactChangeRecord,
}
use auth_core.Entity.Json.{text, member, end}
use auth_core.Persistence.Tables.{
  Database, User, IdentityProvider, ContactChangeRequest, ContactState,
}
use auth_core.Persistence.LoginRepository.{present, same_provider}
use auth_core.Persistence.RecoveryRepository.Accounts.{Tx, user_row, update_user, audit}

abbrev pub contact_value : ContactType → String
contact_value email = "email"
contact_value phone = "phone"

abbrev pub same_contact : ContactType → ContactType → Bool
same_contact email email = true
same_contact phone phone = true
same_contact _ _ = false

abbrev pub contact_of : ContactType → User → Option String
contact_of email u = u.email
contact_of phone u = u.phone_e164

abbrev pub equals : Option String → String → Bool
equals none s = false
equals (some t) s = str_eq t s

-- Another account has the contact already.
abbrev pub is_taken : ContactType → String → ℕ → Database → Bool
is_taken contact_type value user_id db =
    any_row
      (λ u.
        equals (contact_of contact_type u) value
        && not (u.user_id == user_id)
        && is_none u.anonymized_at)
      db.users

abbrev contact_conflict_error : RecoveryError
contact_conflict_error = record {
  code = contact_conflict;
  message = "That contact is already associated with another account.";
  status_code = 409;
}

-- `_contact`
abbrev pub contact_record : ContactChangeRequest → ContactChangeRecord
contact_record r = record {
  request_id = r.request_id;
  user_id = r.user_id;
  contact_type = r.contact_type;
  old_value = r.old_value;
  new_value = r.new_value;
  expires_at = r.expires_at;
  old_verified_at = r.old_verified_at;
  new_verified_at = r.new_verified_at;
  applied_at = r.applied_at;
}

abbrev pub is_open : ContactState → Bool
is_open ContactState.pending = true
is_open _ = false

-- The arguments of `create_contact_change`, and the UUID of the new row.
pub record ContactChange : Type 0 where
  pub user_id : ℕ
  pub contact_type : ContactType
  pub new_value : String
  pub old_code_hash : ℕ
  pub new_code_hash : ℕ
  pub expires_at : ℕ
  pub request_id : ℕ

abbrev pub new_change : ContactChange → String → ContactChangeRequest
new_change c old_value = record {
  request_id = c.request_id;
  user_id = c.user_id;
  contact_type = c.contact_type;
  old_value = old_value;
  new_value = c.new_value;
  old_code_hash = c.old_code_hash;
  new_code_hash = c.new_code_hash;
  state = ContactState.pending;
  expires_at = c.expires_at;
  old_verified_at = none;
  new_verified_at = none;
  applied_at = none;
}

-- The contact that the user has, if the user is active and it is another one than the new.
abbrev pub replaceable : ContactChange → Option User → Option String
replaceable c none = none
replaceable c (some u) =
    if state_is_active u.state
    then elim (present (contact_of c.contact_type u)) [
      | none ↦ none
      | some old ↦ if str_eq old c.new_value then none else some old
    ]
    else none

-- The requests that are open are cancelled.
abbrev add_change : ContactChange → String → Database → Database
add_change c old_value db = record db {
  contact_changes =
      update_where
        (λ r.
          r.user_id == c.user_id && same_contact r.contact_type c.contact_type && is_open r.state)
        (λ r. record r { state = ContactState.cancelled }) db.contact_changes
      ++ new_change c old_value ∷ [];
}

abbrev change_from : ContactChange → ℕ → Option String → Tx (Option ContactChangeRecord)
change_from c correlation_id none = pure none
change_from c correlation_id (some old_value) = do
  taken ← gets (is_taken c.contact_type c.new_value c.user_id)
  raise_if taken contact_conflict_error
  modify (add_change c old_value)
  modify (
      audit "CONTACT_CHANGE_STARTED" correlation_id c.user_id (some c.user_id)
        (member "contact_type" (text (contact_value c.contact_type)) end))
  pure (some (contact_record (new_change c old_value)))

unfoldable pub create_contact_change : ContactChange → ℕ → Tx (Option ContactChangeRecord)
create_contact_change c correlation_id =
    atomic (do user ← gets (user_row c.user_id); change_from c correlation_id (replaceable c user))

abbrev pub is_own_change : ℕ → ℕ → ContactChangeRequest → Bool
is_own_change user_id request_id r = r.request_id == request_id && r.user_id == user_id

abbrev pub expected_hash : ContactProof → ContactChangeRequest → ℕ
expected_hash old_contact r = r.old_code_hash
expected_hash new_contact r = r.new_code_hash

-- The proof is noted at the time when it came first.
abbrev pub proven : ContactProof → ℕ → ContactChangeRequest → ContactChangeRequest
proven old_contact now r = record r { old_verified_at = some (or_else r.old_verified_at now) }
proven new_contact now r = record r { new_verified_at = some (or_else r.new_verified_at now) }

abbrev pub is_complete : ContactChangeRequest → Bool
is_complete r = is_some r.old_verified_at && is_some r.new_verified_at

abbrev provider_of : ContactType → IdentityProvider
provider_of email = IdentityProvider.password
provider_of phone = IdentityProvider.phone

abbrev pub put_contact : ContactType → String → User → User
put_contact email value u = record u { email = some value; version = u.version + 1 }
put_contact phone value u = record u { phone_e164 = some value; version = u.version + 1 }

-- The new contact breaks a unique index: of the users, or of the identities.
abbrev pub breaks_index : ContactChangeRequest → Database → Bool
breaks_index r db =
    is_taken r.contact_type r.new_value r.user_id db
    || any_row
        (λ i.
          same_provider i.provider (provider_of r.contact_type)
          && str_eq i.provider_subject r.new_value
          && not (i.user_id == r.user_id))
        db.identities

abbrev put_change : ContactChangeRequest → Database → Database
put_change r db = record db {
  contact_changes = update_where (λ x. x.request_id == r.request_id) (λ x. r) db.contact_changes;
}

abbrev pub applied : ℕ → ContactChangeRequest → ContactChangeRequest
applied now r = record r { state = ContactState.applied; applied_at = some now }

-- The contact of the user and the subject of the identity change together.
abbrev apply_contact : ContactChangeRequest → Database → Database
apply_contact r db = record (update_user r.user_id (put_contact r.contact_type r.new_value) db) {
  identities =
      update_where
        (λ i. i.user_id == r.user_id && same_provider i.provider (provider_of r.contact_type))
        (λ i. record i { provider_subject = r.new_value }) db.identities;
}

abbrev apply_change : ℕ → ℕ → ContactChangeRequest → Tx (Option ContactChangeRecord)
apply_change now correlation_id r = do
  breaks ← gets (breaks_index r)
  raise_if breaks contact_conflict_error
  modify (apply_contact r)
  modify (put_change (applied now r))
  modify (
      audit "CONTACT_CHANGE_COMPLETED" correlation_id r.user_id (some r.user_id)
        (member "contact_type" (text (contact_value r.contact_type)) end))
  pure (some (contact_record (applied now r)))

abbrev pub is_active_user : Option User → Bool
is_active_user none = false
is_active_user (some u) = state_is_active u.state

abbrev complete_change : ℕ → ℕ → ContactChangeRequest → Tx (Option ContactChangeRecord)
complete_change now correlation_id r = do
  modify (put_change r)
  active ← gets (λ db. is_active_user (user_row r.user_id db))
  if is_complete r
      then (if active then apply_change now correlation_id r else pure none)
      else pure (some (contact_record r))

abbrev verify_found :
    ℕ → ContactProof → ℕ → ℕ → Option ContactChangeRequest → Tx (Option ContactChangeRecord)
verify_found now proof code_hash correlation_id none = pure none
verify_found now proof code_hash correlation_id (some r) =
    if not (is_open r.state) || leb r.expires_at now || not (expected_hash proof r == code_hash)
    then pure none
    else complete_change now correlation_id (proven proof now r)

unfoldable pub verify_contact_change :
    ℕ → ℕ → ℕ → ContactProof → ℕ → ℕ → Tx (Option ContactChangeRecord)
verify_contact_change now user_id request_id proof code_hash correlation_id = atomic (do
  found ← gets (λ db. find_row (is_own_change user_id request_id) db.contact_changes)
  verify_found now proof code_hash correlation_id found)
