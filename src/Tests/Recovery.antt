-- ===== src/Tests/Recovery.antt =====
-- The properties of the recovery workflows, at the sample tables.
use auth_core.Prelude.{
  ◌≤◌, ◌≡◌, refl, true, false, none, some, [], ◌∷◌, arith, str_eq, length, rows_where, find_row,
  List, ◌==◌,
}
use auth_core.Prelude.Action.{ok, raised}
use auth_core.Entity.Json.{end}
use auth_core.Entity.User.{UserState}
use auth_core.Entity.Session.{AccessClaims}
use auth_core.Entity.Recovery.{updated, invalid, email, old_contact, StaffRole, account_admin}
use auth_core.Entity.PasswordPolicy.{password_fits}
use auth_core.Redis.Memory.{nothing}
use auth_core.Tokens.{verify, issue}
use auth_core.Persistence.Tables.{
  Database, EphemeralToken, PasswordHistory, TokenPurpose, GovernedRequest, GovernedState,
  ContactState, ContactChangeRequest,
}
use auth_core.Persistence.RecoveryRepository.{
  initiate_mfa_reset, approve_mfa_reset, execute_mfa_reset, governed_record, execution, approval,
  new_request, bumped, recovery_user, changed_since_approval, consume_password_reset, apply_reset,
  was_used, remember, history_of, of_identity, ContactChange, create_contact_change,
  verify_contact_change, user_row, put_state, staff_has_role,
}
use auth_core.Persistence.RecoveryLaws.Governed.{
  IsGoverned, Reach-IsGoverned, changed_target_stays_approved, initiates, approves,
}
use auth_core.Persistence.RecoveryLaws.Governed
use auth_core.Persistence.RecoveryLaws.Carried.{reset_carried_through}
use auth_core.Persistence.RecoveryLaws.History.{new_row}
use auth_core.Persistence.RecoveryLaws.Reset.{
  consume_password_reset-history, reset_single_use, issue_all, Issue,
}
use auth_core.Persistence.RecoveryLaws.Contact.{
  IsConsistent, Reach-IsConsistent, verify_contact_change-one_proof, creates, verifies,
}
use auth_core.Persistence.RecoveryLaws.Contact
use auth_core.Control.Session.{W, invalid_session, authenticate}
use auth_core.Control.Recovery.{RecoveryControl, reset_password, suspend, forbidden_error}
use auth_core.Control.RecoveryLaws.ShutOut.{reset_password_shuts_out, suspend_shuts_out}
use auth_core.Control.RecoveryLaws.Staff.{Requests, AllRefused, without_role_refused}
use auth_core.Tests.Samples.{control, world, database, user, identity, claims, access_token}

Reach-IsGoverned_example :
    IsGoverned (approve_mfa_reset 2 9 70 98 (initiate_mfa_reset 1 8 5 20 "T-1" 99 70 database).1).1
Reach-IsGoverned_example =
    Reach-IsGoverned
      (Governed.next (Governed.next Governed.here (initiates 1 8 5 20 "T-1" 99 70 database))
        (approves 2 9 70 98 (initiate_mfa_reset 1 8 5 20 "T-1" 99 70 database).1))
      tt

abbrev stale_request : GovernedRequest
stale_request = record {
  governed_request_id = 70;
  request_type = "mfa_reset";
  target_user_id = 5;
  initiator_user_id = 8;
  approver_user_id = some 9;
  state = GovernedState.approved;
  initiated_at = 1;
  execute_after = 20;
  approved_at = some 2;
  executed_at = none;
  target_user_version = 7;
  ticket_reference = none;
}

abbrev stale_tables : Database
stale_tables = record database { governed_requests = stale_request ∷ [] }

changed_target_stays_approved_example :
    execute_mfa_reset 30 9 70 97 stale_tables ≡ (raised changed_since_approval, stale_tables)
changed_target_stays_approved_example =
    changed_target_stays_approved 30 9 70 97 stale_request stale_tables refl refl refl (omega arith)
      refl

reset_carried_through_example :
    (execute_mfa_reset 30 9 70 97
      (approve_mfa_reset 2 9 70 98 (initiate_mfa_reset 1 8 5 20 "T-1" 99 70 database).1).1).0
    ≡ ok (
        some (
          governed_record (execution 30 (approval 2 9 (new_request 70 1 20 8 user 5 "T-1"))),
          recovery_user (bumped user),
        ))
reset_carried_through_example =
    reset_carried_through 1 2 30 8 9 9 5 20 "T-1" 70 99 98 97 database user refl refl refl refl
      (omega arith)

abbrev link : EphemeralToken
link = record {
  user_id = some 5;
  token_hash = 30;
  purpose = TokenPurpose.password_reset;
  metadata = end;
  expires_at = 900_000_000;
  consumed_at = none;
}

abbrev linked : Database
linked = record database { ephemeral_tokens = link ∷ [] }

reset_done :
    (consume_password_reset str_eq 1_600_000 30 "a new password" "new hash" 99 40 linked).0
    ≡ (updated, some (recovery_user (bumped user)))
unfolding consume_password_reset apply_reset was_used remember history_of
reset_done = refl

abbrev four_passwords : List PasswordHistory
four_passwords =
    new_row 1 31 6 "a" ∷ new_row 2 32 6 "b" ∷ new_row 3 33 6 "c" ∷ new_row 4 34 6 "d" ∷ []

abbrev four_used : Database
four_used = record linked { password_history = four_passwords }

reset_again :
    (consume_password_reset str_eq 1_600_000 30 "a new password" "new hash" 99 40 four_used).0
    ≡ (updated, some (recovery_user (bumped user)))
unfolding consume_password_reset apply_reset was_used remember history_of
reset_again = refl

consume_password_reset-history_example :
    (find_row
        (λ h. h.history_id == 40)
        (consume_password_reset str_eq 1_600_000 30 "a new password" "new hash" 99 40
          four_used).1.password_history
      ≡ some (new_row 1_600_000 40 6 "new hash"))
    × (length (
          rows_where
            (of_identity 6)
            (consume_password_reset str_eq 1_600_000 30 "a new password" "new hash" 99 40
              four_used).1.password_history)
        ≤ 4)
consume_password_reset-history_example =
    consume_password_reset-history str_eq 1_600_000 30 "a new password" "new hash" 99 40 5 four_used
      link identity refl refl refl (refl, (refl, (refl, (refl, tt))))
      (refl, (refl, (refl, (refl, tt)))) (λ i. (reset_again i).0)

abbrev reissue : Issue
reissue = record {
  now = 1_700_000;
  user_id = 5;
  token_hash = 31;
  purpose = TokenPurpose.support_recovery;
  expires_at = 901_700_000;
  correlation_id = 98;
  actor = some 8;
  ticket_reference = some "T-2";
}

reset_single_use_example :
    (consume_password_reset str_eq 1_800_000 30 "another password" "another hash" 97 41 (
      issue_all
        (reissue ∷ [])
        (consume_password_reset str_eq 1_600_000 30 "a new password" "new hash" 99 40 linked).1)).0
    ≡ (invalid, none)
reset_single_use_example =
    reset_single_use str_eq 1_600_000 1_800_000 30 "a new password" "another password" "new hash"
      "another hash" 99 97 40 41 (reissue ∷ []) linked (λ i. (reset_done i).0)

abbrev change : ContactChangeRequest
change = record {
  request_id = 60;
  user_id = 5;
  contact_type = email;
  old_value = "a@b.c";
  new_value = "new@b.c";
  old_code_hash = 61;
  new_code_hash = 62;
  state = ContactState.pending;
  expires_at = 600_000_000;
  old_verified_at = none;
  new_verified_at = none;
  applied_at = none;
}

abbrev changing : Database
changing = record database { contact_changes = change ∷ [] }

verify_contact_change-one_proof_example :
    ((verify_contact_change 1_600_000 5 60 old_contact 61 99 changing).1.users ≡ changing.users)
    × ((verify_contact_change 1_600_000 5 60 old_contact 61 99 changing).1.identities
        ≡ changing.identities)
verify_contact_change-one_proof_example =
    verify_contact_change-one_proof 1_600_000 5 60 old_contact 61 99 changing change refl refl

abbrev wanted : ContactChange
wanted = record {
  user_id = 5;
  contact_type = email;
  new_value = "new@b.c";
  old_code_hash = 61;
  new_code_hash = 62;
  expires_at = 600_000_000;
  request_id = 60;
}

Reach-IsConsistent_example :
    IsConsistent
      (verify_contact_change 1_600_000 5 60 old_contact 61 98
        (create_contact_change wanted 99 database).1).1
Reach-IsConsistent_example =
    Reach-IsConsistent
      (Contact.next (Contact.next Contact.here (creates wanted 99 database))
        (verifies 1_600_000 5 60 old_contact 61 98 (create_contact_change wanted 99 database).1))
      tt

abbrev recovery : RecoveryControl
recovery = record {
  sessions = control;
  password_hasher = record {
    hash = λ salt p. "new hash";
    verify = λ h p. str_eq h p;
    needs_rehash = λ h. false;
  };
  breach_count = λ p. some 0;
  text_methods = record { strip = λ s. s; casefold = λ s. s };
  classes = record { is_space = λ c. false; is_decimal = λ c. true };
  token_hash = λ s. 30;
  otp_hash = λ s. 61;
}

abbrev linked_world : W control
linked_world = record { redis = nothing; database = linked }

verified_later : verify control.tokens access_token 3_000_000 ≡ ok claims
unfolding verify issue
verified_later = refl

long_enough : password_fits "a new password" ≡ true
unfolding password_fits
long_enough = refl

reset_password_shuts_out_example :
    ((reset_password recovery 1_600_000 "link" "a new password" 1 99 40 linked_world).0 ≡ ok tt)
    × ((authenticate control 3_000_000 access_token (record {
      redis =
          (reset_password recovery 1_600_000 "link" "a new password" 1 99 40 linked_world).1.redis;
      database = database;
    })).0
        ≡ raised invalid_session)
reset_password_shuts_out_example =
    reset_password_shuts_out recovery 1_600_000 "link" "a new password" 1 99 40 linked_world
      (recovery_user (bumped user)) 3_000_000 claims access_token database long_enough refl
      reset_done (omega arith) (omega arith) verified_later refl (ground arith)

abbrev admin_claims : AccessClaims
admin_claims = record claims { user_id = 8; assurance = "totp" ∷ "mfa" ∷ [] }

abbrev staffed : W control
staffed = record {
  redis = nothing;
  database = record database {
    staff_roles = record { user_id = 8; role = account_admin; revoked_at = none } ∷ [];
  };
}

is_admin : staff_has_role 8 account_admin staffed.database ≡ true
unfolding staff_has_role
is_admin = refl

suspend_shuts_out_example :
    ((suspend recovery 1_600_000 admin_claims 5 "T-3" "abuse" 99 staffed).0 ≡ ok tt)
    × (user_row 5 (suspend recovery 1_600_000 admin_claims 5 "T-3" "abuse" 99 staffed).1.database
        ≡ some (put_state UserState.suspended user))
    × ((authenticate control 3_000_000 access_token (record {
      redis = (suspend recovery 1_600_000 admin_claims 5 "T-3" "abuse" 99 staffed).1.redis;
      database = database;
    })).0
        ≡ raised invalid_session)
suspend_shuts_out_example =
    suspend_shuts_out recovery 1_600_000 admin_claims 5 "T-3" "abuse" 99 staffed user 3_000_000
      claims access_token database refl is_admin refl refl (omega arith) (omega arith)
      verified_later refl (ground arith)

abbrev requests : Requests recovery
requests = record {
  now = 1_600_000;
  target = 5;
  request_id = 70;
  ticket = "T-4";
  reason = "none";
  correlation_id = 99;
  recovery_token = "link";
}

no_role : (role : StaffRole) → staff_has_role 8 role world.database ≡ false
unfolding staff_has_role
no_role role = refl

without_role_refused_example : AllRefused recovery forbidden_error admin_claims requests world
without_role_refused_example =
    without_role_refused recovery admin_claims requests world refl no_role
