-- ===== src/Persistence/RecoveryRepository/Accounts.antt =====
-- infrastructure/persistence/recovery_repository.py: staff roles, and the state of an account.
use auth_core.Prelude.{
  ℕ, ◌+◌, String, Bool, true, false, ◌&&◌, Option, none, some, [], ◌∷◌, ◌++◌, ◌==◌, str_eq, is_none,
  is_some, if◌then◌else◌, find_row, update_where,
}
use auth_core.Prelude.Action.{Action}
use auth_core.Entity.User.{UserState}
use auth_core.Entity.Recovery.{
  RecoveryError, RecoveryUser, StaffRole, support_agent_l2, security_supervisor_l3, account_admin,
}
use auth_core.Entity.Json.{Members, text, member, end}
use auth_core.Persistence.Tables.{Database, User, Identity, IdentityProvider}
use auth_core.Persistence.LoginRepository.{same_provider}

abbrev pub Tx : Type 0 → Type 0
Tx A = Action RecoveryError Database A

-- `database.get(User, user_id)`
abbrev pub user_row : ℕ → Database → Option User
user_row user_id db = find_row (λ u. u.user_id == user_id) db.users

abbrev pub update_user : ℕ → (User → User) → Database → Database
update_user user_id f db = record db { users = update_where (λ u. u.user_id == user_id) f db.users }

-- `_user`
abbrev pub recovery_user : User → RecoveryUser
recovery_user u = record {
  user_id = u.user_id;
  email = u.email;
  phone_e164 = u.phone_e164;
  state = u.state;
  version = u.version;
}

-- `database.add(self._audit(...))`
abbrev pub audit : String → ℕ → ℕ → Option ℕ → Members → Database → Database
audit event_type correlation_id subject_user_id actor_user_id metadata db = record db {
  audit_logs =
      db.audit_logs
      ++ record {
        actor_user_id = actor_user_id;
        subject_user_id = some subject_user_id;
        event_type = event_type;
        outcome = "success";
        correlation_id = correlation_id;
        metadata = metadata;
      }
        ∷ [];
}

abbrev pub same_role : StaffRole → StaffRole → Bool
same_role support_agent_l2 support_agent_l2 = true
same_role security_supervisor_l3 security_supervisor_l3 = true
same_role account_admin account_admin = true
same_role _ _ = false

unfoldable pub staff_has_role : ℕ → StaffRole → Database → Bool
staff_has_role user_id role db = is_some (
    find_row (λ b. b.user_id == user_id && same_role b.role role && is_none b.revoked_at)
      db.staff_roles)

-- `user.state in {"active", "locked"}`
abbrev pub is_active_or_locked : UserState → Bool
is_active_or_locked UserState.active = true
is_active_or_locked UserState.locked = true
is_active_or_locked _ = false

abbrev pub has_password : ℕ → Identity → Bool
has_password user_id i = i.user_id == user_id && same_provider i.provider IdentityProvider.password

abbrev has_email : String → User → Bool
has_email email u = elim u.email [
  | none ↦ false
  | some e ↦ str_eq e email && is_none u.anonymized_at
]

abbrev eligible : Database → User → Option RecoveryUser
eligible db u =
    if is_active_or_locked u.state
      && is_some (find_row (λ i. has_password u.user_id i && i.verified) db.identities)
    then some (recovery_user u)
    else none

unfoldable pub eligible_user_by_email : String → Database → Option RecoveryUser
eligible_user_by_email email db = elim (find_row (has_email email) db.users) [
  | none ↦ none
  | some u ↦ eligible db u
]

-- A new state, and a version that tells it from the old.
abbrev pub put_state : UserState → User → User
put_state state u = record u { state = state; version = u.version + 1 }

abbrev unlock_found : ℕ → String → ℕ → Option User → Database → Option RecoveryUser × Database
unlock_found actor ticket_reference correlation_id none db = (none, db)
unlock_found actor ticket_reference correlation_id (some u) db =
    if is_active_or_locked u.state
    then (
      some (recovery_user (put_state UserState.active u)),
      audit "ACCOUNT_UNLOCKED" correlation_id u.user_id (some actor)
          (member "ticket_reference" (text ticket_reference) end)
          (update_user u.user_id (put_state UserState.active) db),
    )
    else (none, db)

unfoldable pub unlock_user : ℕ → ℕ → String → ℕ → Database → Option RecoveryUser × Database
unlock_user actor target ticket_reference correlation_id db =
    unlock_found actor ticket_reference correlation_id (user_row target db) db

-- `user.state in {"disabled", "anonymized"}`
abbrev pub is_gone : UserState → Bool
is_gone UserState.disabled = true
is_gone UserState.anonymized = true
is_gone _ = false

abbrev suspend_found :
    ℕ → String → String → ℕ → Option User → Database → Option RecoveryUser × Database
suspend_found actor ticket_reference reason correlation_id none db = (none, db)
suspend_found actor ticket_reference reason correlation_id (some u) db =
    if is_gone u.state then (none, db) else (
      some (recovery_user (put_state UserState.suspended u)),
      audit "ACCOUNT_SUSPENDED" correlation_id u.user_id (some actor)
          (member "ticket_reference" (text ticket_reference) (member "reason" (text reason) end))
          (update_user u.user_id (put_state UserState.suspended) db),
    )

unfoldable pub suspend_user :
    ℕ → ℕ → String → String → ℕ → Database → Option RecoveryUser × Database
suspend_user actor target ticket_reference reason correlation_id db =
    suspend_found actor ticket_reference reason correlation_id (user_row target db) db
