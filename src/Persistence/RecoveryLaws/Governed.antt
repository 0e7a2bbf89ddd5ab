-- ===== src/Persistence/RecoveryLaws/Governed.antt =====
-- Governed requests along any run of the recovery repository's transactions.
use auth_core.Prelude.{
  ℕ, ◌≤◌, ◌≡◌, refl, String, Bool, true, false, not, ◌&&◌, none, some, List, [], ◌∷◌, arith, ◌==◌,
  leb, ltb, is_some, update_where, Option-cases, Bool-cases, inl, inr,
}
use auth_core.Prelude.Action.{raised}
use auth_core.Prelude.Rows.{Every, Every-update_where, Every-append, Every-find}
use auth_core.Persistence.Tables.{Database, GovernedRequest, GovernedState}
use auth_core.Persistence.RecoveryRepository.{
  initiate_mfa_reset, approve_mfa_reset, execute_mfa_reset, is_mfa_reset, governed_row, user_row,
  has_changed, approval, execution, is_approved, new_request, is_active_or_locked,
  changed_since_approval,
}

-- The request has an approver, who is not its initiator.
abbrev pub has_two_people : GovernedRequest → Bool
has_two_people r = elim r.approver_user_id [
  | none ↦ false
  | some a ↦ not (r.initiator_user_id == a)
]

-- The request was executed when its delay was over.
abbrev pub was_delayed : GovernedRequest → Bool
was_delayed r = elim r.executed_at [ none ↦ false | some t ↦ leb r.execute_after t ]

-- What a request has been through, by the state that it is in. No other state is reached.
abbrev pub is_governed : GovernedRequest → Bool
is_governed r = elim r.state [
  | GovernedState.pending ↦ true
  | GovernedState.approved ↦ has_two_people r
  | GovernedState.executed ↦ has_two_people r && was_delayed r
  | _ ↦ false
]

abbrev pub IsGoverned : Database → Type 0
IsGoverned db = Every (λ r. is_governed r ≡ true) db.governed_requests

-- One transaction on governed requests.
pub data Step : Database → Database → Type 0 where
  initiates :
      (now actor target execute_after : ℕ) (ticket : String) (correlation_id request_id : ℕ)
      (db : Database)
      → Step db
          (initiate_mfa_reset now actor target execute_after ticket correlation_id request_id db).1
  approves :
      (now actor request_id correlation_id : ℕ) (db : Database)
      → Step db (approve_mfa_reset now actor request_id correlation_id db).1
  executes :
      (now actor request_id correlation_id : ℕ) (db : Database)
      → Step db (execute_mfa_reset now actor request_id correlation_id db).1

pub data Reach (start : Database) : Database → Type 0 where
  here : Reach start start
  next : {db db' : Database} → Reach start db → Step db db' → Reach start db'

put_keeps :
    (request : GovernedRequest) (rs : List GovernedRequest)
    → is_governed request ≡ true
    → Every (λ r. is_governed r ≡ true) rs
    → Every
        (λ r. is_governed r ≡ true)
        (update_where (λ r. r.governed_request_id == request.governed_request_id) (λ r. request) rs)
put_keeps request rs g h =
    Every-update_where (λ r. is_governed r ≡ true)
      (λ r. r.governed_request_id == request.governed_request_id) (λ r. request) (λ x p. g) rs h

initiate-IsGoverned :
    (now actor target execute_after : ℕ) (ticket : String) (correlation_id request_id : ℕ)
    (db : Database)
    → IsGoverned db
    → IsGoverned
        (initiate_mfa_reset now actor target execute_after ticket correlation_id request_id db).1
unfolding initiate_mfa_reset
initiate-IsGoverned now actor target execute_after ticket corr id db h =
    elim (Option-cases (user_row target db)) [
      | inl missing ↦ rw missing h
      | inr (u, found) ↦ elim (Bool-cases (is_active_or_locked u.state)) [
        | inl open_ ↦
            rw (found, open_)
              (Every-append (λ r. is_governed r ≡ true) db.governed_requests
                (new_request id now execute_after actor u target ticket ∷ []) h (refl, tt))
        | inr shut ↦ rw (found, shut) h
      ]
    ]

approve-IsGoverned :
    (now actor request_id correlation_id : ℕ) (db : Database)
    → IsGoverned db
    → IsGoverned (approve_mfa_reset now actor request_id correlation_id db).1
unfolding approve_mfa_reset
approve-IsGoverned now actor id corr db h = elim (Option-cases (governed_row id db)) [
  | inl missing ↦ rw missing h
  | inr (r, found) ↦ elim (Bool-cases (r.initiator_user_id == actor)) [
    | inl same ↦ rw (found, same) (ground arith)
    | inr other ↦
        rw (found, other)
          (ground (arith, put_keeps (approval now actor r) db.governed_requests (rw other refl) h))
  ]
]

execute-IsGoverned :
    (now actor request_id correlation_id : ℕ) (db : Database)
    → IsGoverned db
    → IsGoverned (execute_mfa_reset now actor request_id correlation_id db).1
unfolding execute_mfa_reset
execute-IsGoverned now actor id corr db h = elim (Option-cases (governed_row id db)) [
  | inl missing ↦ rw missing h
  | inr (r, found) ↦
      let governed =
        Every-find (λ r. is_governed r ≡ true) (is_mfa_reset id) db.governed_requests r h found in
      elim (Bool-cases (is_approved r.state)) [
        | inr wrong ↦ rw (found, wrong) h
        | inl approved ↦ elim (Bool-cases (ltb now r.execute_after)) [
          | inl early ↦ rw (found, early) (ground arith)
          | inr late ↦
              rw (found, late)
                (ground (arith, put_keeps (execution now r) db.governed_requests (ground arith) h))
        ]
      ]
]

Step-IsGoverned : {a b : Database} → Step a b → IsGoverned a → IsGoverned b
Step-IsGoverned (initiates now actor target execute_after ticket corr id db) h =
    initiate-IsGoverned now actor target execute_after ticket corr id db h
Step-IsGoverned (approves now actor id corr db) h = approve-IsGoverned now actor id corr db h
Step-IsGoverned (executes now actor id corr db) h = execute-IsGoverned now actor id corr db h

-- From tables where every governed request is as `is_governed` says, every run of transactions leads
-- to such tables: an approved request has an approver, who is not its initiator; an executed one
-- as well, and was executed when its delay was over; and none is in another state but pending.
pub Reach-IsGoverned : {a b : Database} → Reach a b → IsGoverned a → IsGoverned b
Reach-IsGoverned here h = h
Reach-IsGoverned (next run step) h = Step-IsGoverned step (Reach-IsGoverned run h)

-- Let an approved request be due, and let its target have changed since it began. Then its execution
-- raises, and the tables are as before: the request is still approved, and not cancelled.
pub changed_target_stays_approved :
    (now actor request_id correlation_id : ℕ) (r : GovernedRequest) (db : Database)
    → governed_row request_id db ≡ some r
    → is_approved r.state ≡ true
    → is_some r.approver_user_id ≡ true
    → r.execute_after ≤ now
    → has_changed r (user_row r.target_user_id db) ≡ true
    → execute_mfa_reset now actor request_id correlation_id db ≡ (raised changed_since_approval, db)
unfolding execute_mfa_reset
changed_target_stays_approved now actor id corr r db found approved by due changed =
    rw (found) (ground arith)
