-- ===== src/Persistence/RecoveryRepository/Governed.antt =====
-- infrastructure/persistence/recovery_repository.py: the governed reset of second factors, which two
-- members of the staff carry through.
use auth_core.Prelude.{
  ℕ, ◌+◌, String, Bool, true, false, not, ◌&&◌, Option, none, some, [], ◌∷◌, ◌++◌, ◌==◌, str_eq,
  ltb, is_some, if◌then◌else◌, find_row, update_where,
}
use mathlib.Core.Option
use auth_core.Prelude.Action.{pure, raise, raise_if, gets, modify, atomic, ◌>>=◌, ◌>>◌}
use auth_core.Entity.Recovery.{
  RecoveryError, RecoveryUser, GovernedResetRecord, four_eyes_required, governed_too_early,
  target_changed,
}
use auth_core.Entity.Json.{uuid, member, end}
use auth_core.Persistence.Tables.{Database, User, FactorStatus, GovernedRequest, GovernedState}
use auth_core.Persistence.RecoveryRepository.Accounts.{
  Tx, user_row, update_user, recovery_user, audit, is_active_or_locked,
}

abbrev pub is_mfa_reset : ℕ → GovernedRequest → Bool
is_mfa_reset request_id r = r.governed_request_id == request_id && str_eq r.request_type "mfa_reset"

abbrev pub governed_row : ℕ → Database → Option GovernedRequest
governed_row request_id db = find_row (is_mfa_reset request_id) db.governed_requests

-- The row of a request, which its primary key names, as it is now.
abbrev pub put_request : GovernedRequest → Database → Database
put_request request db = record db {
  governed_requests =
      update_where (λ r. r.governed_request_id == request.governed_request_id) (λ r. request)
        db.governed_requests;
}

abbrev pub is_pending : GovernedState → Bool
is_pending GovernedState.pending = true
is_pending _ = false

abbrev pub is_approved : GovernedState → Bool
is_approved GovernedState.approved = true
is_approved _ = false

-- `_governed`
abbrev pub GovernedRecord : Type 0
GovernedRecord = GovernedResetRecord GovernedState

abbrev pub governed_record : GovernedRequest → GovernedRecord
governed_record r = record {
  request_id = r.governed_request_id;
  target_user_id = r.target_user_id;
  initiator_user_id = r.initiator_user_id;
  approver_user_id = r.approver_user_id;
  state = r.state;
  initiated_at = r.initiated_at;
  execute_after = r.execute_after;
  approved_at = r.approved_at;
  executed_at = r.executed_at;
  ticket_reference = r.ticket_reference;
}

abbrev pub new_request : ℕ → ℕ → ℕ → ℕ → User → ℕ → String → GovernedRequest
new_request request_id now execute_after actor user target ticket_reference = record {
  governed_request_id = request_id;
  request_type = "mfa_reset";
  target_user_id = target;
  initiator_user_id = actor;
  approver_user_id = none;
  state = GovernedState.pending;
  initiated_at = now;
  execute_after = execute_after;
  approved_at = none;
  executed_at = none;
  target_user_version = user.version;
  ticket_reference = some ticket_reference;
}

abbrev initiate_found :
    ℕ
    → ℕ
    → ℕ
    → ℕ
    → String
    → ℕ
    → ℕ
    → Option User
    → Database
    → Option (GovernedRecord × RecoveryUser) × Database
initiate_found now actor target execute_after ticket_reference correlation_id request_id none db =
    (none, db)
initiate_found now actor target execute_after ticket_reference correlation_id request_id (some u)
      db =
    let request = new_request request_id now execute_after actor u target ticket_reference in
    if is_active_or_locked u.state
    then (
      some (governed_record request, recovery_user u),
      audit "ADMIN_MFA_RESET_INITIATED" correlation_id target (some actor)
          (member "request_id" (uuid request_id) end)
          (record db { governed_requests = db.governed_requests ++ request ∷ [] }),
    )
    else (none, db)

unfoldable pub initiate_mfa_reset :
    ℕ → ℕ → ℕ → ℕ → String → ℕ → ℕ → Database → Option (GovernedRecord × RecoveryUser) × Database
initiate_mfa_reset now actor target execute_after ticket_reference correlation_id request_id db =
    initiate_found now actor target execute_after ticket_reference correlation_id request_id
      (user_row target db) db

abbrev four_eyes_error : RecoveryError
four_eyes_error = record {
  code = four_eyes_required;
  message = "A different security supervisor must approve this request.";
  status_code = 409;
}

abbrev pub changed_since_request : RecoveryError
changed_since_request = record {
  code = target_changed;
  message = "The account changed after this request began. Start a new request.";
  status_code = 409;
}

abbrev pub changed_since_approval : RecoveryError
changed_since_approval = record {
  code = target_changed;
  message = "The account changed after approval. Start a new request.";
  status_code = 409;
}

abbrev too_early_error : RecoveryError
too_early_error = record {
  code = governed_too_early;
  message = "The mandatory protection delay has not finished.";
  status_code = 409;
}

-- `user is None or user.version != request.target_user_version`
abbrev pub has_changed : GovernedRequest → Option User → Bool
has_changed request none = true
has_changed request (some u) = not (u.version == request.target_user_version)

-- `request.state = "cancelled"` before a raise
abbrev cancel_and_raise : GovernedRequest → RecoveryError → Bool → Tx Unit
cancel_and_raise request error true = do
  modify (put_request (record request { state = GovernedState.cancelled }))
  raise error
cancel_and_raise request error false = pure tt

abbrev pub approval : ℕ → ℕ → GovernedRequest → GovernedRequest
approval now actor r = record r {
  approver_user_id = some actor;
  approved_at = some now;
  state = GovernedState.approved;
}

abbrev approve_found : ℕ → ℕ → ℕ → Option GovernedRequest → Tx (Option GovernedRecord)
approve_found now actor correlation_id none = pure none
approve_found now actor correlation_id (some request) =
    if is_pending request.state
    then (do
      raise_if (request.initiator_user_id == actor) four_eyes_error
      changed ← gets (λ db. has_changed request (user_row request.target_user_id db))
      cancel_and_raise request changed_since_request changed
      modify (put_request (approval now actor request))
      modify (
          audit "ADMIN_MFA_RESET_APPROVED" correlation_id request.target_user_id (some actor)
            (member "request_id" (uuid request.governed_request_id) end))
      pure (some (governed_record (approval now actor request))))
    else pure none

unfoldable pub approve_mfa_reset : ℕ → ℕ → ℕ → ℕ → Tx (Option GovernedRecord)
approve_mfa_reset now actor request_id correlation_id =
    atomic (do found ← gets (governed_row request_id); approve_found now actor correlation_id found)

unfoldable pub get_mfa_reset : ℕ → Database → Option GovernedRecord
get_mfa_reset request_id db = Option.map governed_record (governed_row request_id db)

abbrev pub is_revoked_factor : FactorStatus → Bool
is_revoked_factor FactorStatus.revoked = true
is_revoked_factor _ = false

-- The factors of the user are revoked.
abbrev pub revoke_factors : ℕ → ℕ → Database → Database
revoke_factors now user_id db = record db {
  mfa_devices =
      update_where (λ d. d.user_id == user_id && not (is_revoked_factor d.status))
        (λ d. record d { status = FactorStatus.revoked; revoked_at = some now }) db.mfa_devices;
}

abbrev pub execution : ℕ → GovernedRequest → GovernedRequest
execution now r = record r { state = GovernedState.executed; executed_at = some now }

abbrev pub bumped : User → User
bumped u = record u { version = u.version + 1 }

abbrev execute_for :
    ℕ → ℕ → ℕ → GovernedRequest → Option User → Tx (Option (GovernedRecord × RecoveryUser))
execute_for now actor correlation_id request none = pure none
execute_for now actor correlation_id request (some u) = do
  modify (revoke_factors now u.user_id)
  modify (update_user u.user_id bumped)
  modify (put_request (execution now request))
  modify (
      audit "ADMIN_MFA_RESET_EXECUTED" correlation_id u.user_id (some actor)
        (member "request_id" (uuid request.governed_request_id) end))
  pure (some (governed_record (execution now request), recovery_user (bumped u)))

abbrev execute_found :
    ℕ → ℕ → ℕ → Option GovernedRequest → Tx (Option (GovernedRecord × RecoveryUser))
execute_found now actor correlation_id none = pure none
execute_found now actor correlation_id (some request) =
    if is_approved request.state && is_some request.approver_user_id
    then (do
      raise_if (ltb now request.execute_after) too_early_error
      user ← gets (user_row request.target_user_id)
      cancel_and_raise request changed_since_approval (has_changed request user)
      execute_for now actor correlation_id request user)
    else pure none

unfoldable pub execute_mfa_reset : ℕ → ℕ → ℕ → ℕ → Tx (Option (GovernedRecord × RecoveryUser))
execute_mfa_reset now actor request_id correlation_id =
    atomic (do found ← gets (governed_row request_id); execute_found now actor correlation_id found)
