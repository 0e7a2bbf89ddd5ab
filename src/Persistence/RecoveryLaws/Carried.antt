-- ===== src/Persistence/RecoveryLaws/Carried.antt =====
-- A governed reset that two people carry through.
use auth_core.Prelude.{
  ℕ, ◌≤◌, ◌≡◌, refl, String, true, false, not, ◌&&◌, none, some, List, [], ◌∷◌, arith, ◌==◌,
  ==-refl, is_some, rows_where, update_where, Option-cases, inl, inr,
}
use auth_core.Prelude.Action.{ok}
use auth_core.Prelude.Rows.{find_row-append_new, find_row-replace, find_row_holds}
use auth_core.Entity.Recovery.{RecoveryUser}
use auth_core.Persistence.Tables.{
  Database, User, MfaDevice, FactorStatus, GovernedRequest, GovernedState,
}
use auth_core.Persistence.RecoveryRepository.{
  initiate_mfa_reset, approve_mfa_reset, execute_mfa_reset, is_mfa_reset, governed_row, user_row,
  approval, execution, new_request, is_active_or_locked, is_approved, GovernedRecord,
  governed_record, recovery_user, bumped, is_revoked_factor,
}

initiated_row :
    (now actor target execute_after : ℕ) (ticket : String) (corr id : ℕ) (db : Database) (u : User)
    → user_row target db ≡ some u
    → is_active_or_locked u.state ≡ true
    → governed_row id db ≡ none
    → (governed_row id (initiate_mfa_reset now actor target execute_after ticket corr id db).1
        ≡ some (new_request id now execute_after actor u target ticket))
      × (user_row target (initiate_mfa_reset now actor target execute_after ticket corr id db).1
          ≡ some u)
unfolding initiate_mfa_reset
initiated_row now actor target execute_after ticket corr id db u found active fresh =
    rw (found, active)
      (
        find_row-append_new (is_mfa_reset id)
            (new_request id now execute_after actor u target ticket) db.governed_requests fresh
            (ground (arith, ==-refl id)),
        found,
      )

approved_row :
    (now actor id corr : ℕ) (r : GovernedRequest) (db : Database) (u : User)
    → governed_row id db ≡ some r
    → r.state ≡ GovernedState.pending
    → (r.initiator_user_id == actor) ≡ false
    → user_row r.target_user_id db ≡ some u
    → u.version ≡ r.target_user_version
    → (governed_row id (approve_mfa_reset now actor id corr db).1 ≡ some (approval now actor r))
      × (user_row r.target_user_id (approve_mfa_reset now actor id corr db).1 ≡ some u)
unfolding approve_mfa_reset
approved_row now actor id corr r db u found pending other user same =
    rw (found, pending, other, user)
      (ground (
        arith,
        find_row_holds (is_mfa_reset id) db.governed_requests r found,
        find_row-replace (is_mfa_reset id) (λ x. x.governed_request_id == r.governed_request_id) r
            (approval now actor r) (==-refl r.governed_request_id)
            (find_row_holds (is_mfa_reset id) db.governed_requests r found) db.governed_requests
            found,
      ))

executed :
    (now actor id corr : ℕ) (r : GovernedRequest) (db : Database) (u : User)
    → governed_row id db ≡ some r
    → is_approved r.state ≡ true
    → is_some r.approver_user_id ≡ true
    → r.execute_after ≤ now
    → user_row r.target_user_id db ≡ some u
    → u.version ≡ r.target_user_version
    → (execute_mfa_reset now actor id corr db).0
      ≡ ok (some (governed_record (execution now r), recovery_user (bumped u)))
unfolding execute_mfa_reset
executed now actor id corr r db u found approved by due user same = rw found (ground arith)

-- Let an active or locked account be the target of a request under a new id, let another member of
-- the staff approve it with no transaction in between, and let it be executed when its delay is
-- over. Then the execution succeeds: the request is executed, with both people on record, and the
-- version of the account is one higher.
pub reset_carried_through :
    (now granted_at later initiator approver executor target execute_after : ℕ) (ticket : String)
    (id corr corr' corr'' : ℕ) (db : Database) (u : User)
    → user_row target db ≡ some u
    → is_active_or_locked u.state ≡ true
    → governed_row id db ≡ none
    → (initiator == approver) ≡ false
    → execute_after ≤ later
    → (execute_mfa_reset later executor id corr''
        (approve_mfa_reset granted_at approver id corr'
          (initiate_mfa_reset now initiator target execute_after ticket corr id db).1).1).0
      ≡ ok (
          some (
            governed_record (
                execution later (
                  approval granted_at approver
                    (new_request id now execute_after initiator u target ticket))),
            recovery_user (bumped u),
          ))
reset_carried_through now granted_at later initiator approver executor target execute_after ticket
      id corr corr' corr'' db u found active fresh other due =
    let r = new_request id now execute_after initiator u target ticket in
    let db1 = (initiate_mfa_reset now initiator target execute_after ticket corr id db).1 in
    let db2 = (approve_mfa_reset granted_at approver id corr' db1).1 in
    let (row1, user1) =
      initiated_row now initiator target execute_after ticket corr id db u found active fresh in
    let (row2, user2) =
      approved_row granted_at approver id corr' r db1 u row1 refl other user1 refl in
    executed later executor id corr'' (approval granted_at approver r) db2 u row2 refl refl due
      user2 refl

no_factor_left :
    (now user_id : ℕ) (ds : List MfaDevice)
    → rows_where
        (λ d. d.user_id == user_id && not (is_revoked_factor d.status))
        (update_where
          (λ d. d.user_id == user_id && not (is_revoked_factor d.status))
          (λ d. record d { status = FactorStatus.revoked; revoked_at = some now })
          ds)
      ≡ []
no_factor_left now user_id [] = refl
no_factor_left now user_id (d ∷ ds) = ground (arith, no_factor_left now user_id ds)

-- An execution that succeeds leaves the target no second factor that is not revoked.
pub execute_mfa_reset-revokes :
    (now actor id corr : ℕ) (db : Database) (r : GovernedRecord) (u : RecoveryUser)
    → (execute_mfa_reset now actor id corr db).0 ≡ ok (some (r, u))
    → rows_where
        (λ d. d.user_id == u.user_id && not (is_revoked_factor d.status))
        (execute_mfa_reset now actor id corr db).1.mfa_devices
      ≡ []
unfolding execute_mfa_reset
execute_mfa_reset-revokes now actor id corr db r u e = elim (Option-cases (governed_row id db)) [
  | inl missing ↦ absurd (ground arith)
  | inr (request, found) ↦ elim (Option-cases (user_row request.target_user_id db)) [
    | inl gone ↦ absurd (ground arith)
    | inr (target, user) ↦ ground (arith, no_factor_left now target.user_id db.mfa_devices)
  ]
]
