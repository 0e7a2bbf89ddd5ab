-- ===== src/Persistence/RecoveryLaws/Contact.antt =====
-- Contact changes: both contacts are proven before anything changes.
use auth_core.Prelude.{
  ℕ, ◌≡◌, refl, Bool, true, false, ◌&&◌, Option, none, some, List, [], ◌∷◌, arith, ◌==◌, is_none,
  is_some, find_row, update_where, Option-cases, Bool-cases, inl, inr,
}
use auth_core.Prelude.Rows.{Every, Every-update_where, Every-append, Every-find}
use auth_core.Entity.Recovery.{ContactProof, old_contact, new_contact}
use auth_core.Persistence.Tables.{Database, ContactChangeRequest, ContactState}
use auth_core.Persistence.RecoveryRepository.{
  ContactChange, create_contact_change, verify_contact_change, is_own_change, proven, is_complete,
  is_open, user_row, same_contact, applied, replaceable, new_change, is_taken,
}

-- The proof of the other contact.
abbrev pub other_proof : ContactProof → ContactChangeRequest → Option ℕ
other_proof old_contact r = r.new_verified_at
other_proof new_contact r = r.old_verified_at

-- A code never changes an account before the other contact is proven, whether it is right or wrong.
pub verify_contact_change-one_proof :
    (now user_id request_id : ℕ) (proof : ContactProof) (code_hash corr : ℕ) (db : Database)
    (r : ContactChangeRequest)
    → find_row (is_own_change user_id request_id) db.contact_changes ≡ some r
    → other_proof proof r ≡ none
    → ((verify_contact_change now user_id request_id proof code_hash corr db).1.users ≡ db.users)
      × ((verify_contact_change now user_id request_id proof code_hash corr db).1.identities
          ≡ db.identities)
unfolding verify_contact_change
verify_contact_change-one_proof now user_id id old_contact code corr db r found other = ground arith
verify_contact_change-one_proof now user_id id new_contact code corr db r found other = ground arith

-- What a request has been through, by the state that it is in.
abbrev pub is_consistent : ContactChangeRequest → Bool
is_consistent r = elim r.state [
  | ContactState.pending ↦ is_none r.applied_at
  | ContactState.cancelled ↦ is_none r.applied_at
  | ContactState.applied ↦ is_complete r && is_some r.applied_at
  | ContactState.expired ↦ false
]

abbrev pub IsConsistent : Database → Type 0
IsConsistent db = Every (λ r. is_consistent r ≡ true) db.contact_changes

pub data Step : Database → Database → Type 0 where
  creates :
      (c : ContactChange) (correlation_id : ℕ) (db : Database)
      → Step db (create_contact_change c correlation_id db).1
  verifies :
      (now user_id request_id : ℕ) (proof : ContactProof) (code_hash correlation_id : ℕ)
      (db : Database)
      → Step db (verify_contact_change now user_id request_id proof code_hash correlation_id db).1

pub data Reach (start : Database) : Database → Type 0 where
  here : Reach start start
  next : {db db' : Database} → Reach start db → Step db db' → Reach start db'

create-IsConsistent :
    (c : ContactChange) (corr : ℕ) (db : Database)
    → IsConsistent db
    → IsConsistent (create_contact_change c corr db).1
unfolding create_contact_change
create-IsConsistent c corr db h = elim (Option-cases (replaceable c (user_row c.user_id db))) [
  | inl kept ↦ rw kept h
  | inr (old, from) ↦ elim (Bool-cases (is_taken c.contact_type c.new_value c.user_id db)) [
    | inl taken ↦ rw (from, taken) h
    | inr free ↦
        rw (from, free)
          (Every-append (λ r. is_consistent r ≡ true)
            (update_where
              (λ r.
                r.user_id == c.user_id
                && same_contact r.contact_type c.contact_type
                && is_open r.state)
              (λ r. record r { state = ContactState.cancelled }) db.contact_changes)
            (new_change c old ∷ []) (cancelled_keeps c db.contact_changes h) (refl, tt))
  ]
]
  where
    cancelled_keeps :
        (c : ContactChange) (rs : List ContactChangeRequest)
        → Every (λ r. is_consistent r ≡ true) rs
        → Every
            (λ r. is_consistent r ≡ true)
            (update_where
              (λ r.
                r.user_id == c.user_id
                && same_contact r.contact_type c.contact_type
                && is_open r.state)
              (λ r. record r { state = ContactState.cancelled })
              rs)
    cancelled_keeps c [] h = tt
    cancelled_keeps c (r ∷ rs) h = (ground arith, cancelled_keeps c rs h.1)

put-IsConsistent :
    (r : ContactChangeRequest) (rs : List ContactChangeRequest)
    → is_consistent r ≡ true
    → Every (λ r. is_consistent r ≡ true) rs
    → Every
        (λ r. is_consistent r ≡ true)
        (update_where (λ x. x.request_id == r.request_id) (λ x. r) rs)
put-IsConsistent r rs g h =
    Every-update_where (λ r. is_consistent r ≡ true) (λ x. x.request_id == r.request_id) (λ x. r)
      (λ x p. g) rs h

proven-IsConsistent :
    (proof : ContactProof) (now : ℕ) (r : ContactChangeRequest)
    → is_open r.state ≡ true
    → is_consistent r ≡ true
    → is_consistent (proven proof now r) ≡ true
proven-IsConsistent old_contact now r o c = ground arith
proven-IsConsistent new_contact now r o c = ground arith

verify-IsConsistent :
    (now user_id request_id : ℕ) (proof : ContactProof) (code_hash corr : ℕ) (db : Database)
    → IsConsistent db
    → IsConsistent (verify_contact_change now user_id request_id proof code_hash corr db).1
unfolding verify_contact_change
verify-IsConsistent now user_id id proof code corr db h =
    elim (Option-cases (find_row (is_own_change user_id id) db.contact_changes)) [
      | inl missing ↦ rw missing h
      | inr (r, found) ↦
          let c =
            Every-find (λ r. is_consistent r ≡ true) (is_own_change user_id id) db.contact_changes r
              h found in
          let r' = proven proof now r in
          elim (Bool-cases (is_open r.state)) [
            | inr shut ↦ rw (found, shut) h
            | inl o ↦
                let noted =
                  put-IsConsistent r' db.contact_changes (proven-IsConsistent proof now r o c) h in
                elim (Bool-cases (is_complete r')) [
                  | inl complete ↦
                      rw (found, o)
                        (ground (
                          arith,
                          noted,
                          put-IsConsistent (applied now r')
                              (update_where (λ x. x.request_id == r'.request_id) (λ x. r')
                                db.contact_changes)
                              (ground arith) noted,
                        ))
                  | inr partly ↦ rw (found, o) (ground (arith, noted))
                ]
          ]
    ]

-- From consistent tables every run of transactions leads to consistent tables: a contact change is
-- applied only with both contacts proven, and one that is pending or cancelled was never applied.
pub Reach-IsConsistent : {a b : Database} → Reach a b → IsConsistent a → IsConsistent b
Reach-IsConsistent here h = h
Reach-IsConsistent (next run (creates c corr db)) h =
    create-IsConsistent c corr db (Reach-IsConsistent run h)
Reach-IsConsistent (next run (verifies now user_id id proof code corr db)) h =
    verify-IsConsistent now user_id id proof code corr db (Reach-IsConsistent run h)
