-- ===== src/Persistence/SessionLaws/RevokeAll.antt =====
-- `revoke_all` leaves the user with no session that is listed, scoped or rotated.
use auth_core.Prelude.{
  ℕ, ◌≤◌, ◌≡◌, refl, String, Bool, true, false, not, ◌&&◌, none, some, List, [], ◌∷◌, arith, ◌==◌,
  or_else, length, rows_where, update_where, ap,
}
use auth_core.Prelude.Rows.{rows_where-and, rows_where-none, length-rows_where_mono}
use auth_core.Persistence.SessionLaws.Spared.{spared, not_spared_self}
use auth_core.Persistence.Tables.{Database, RefreshTokenFamily, Session}
use auth_core.Persistence.SessionRepository.{
  family_of, join_family, revoke_locked, not_revoked_for, revoke_each, revoke_all, is_active,
  list_sessions,
}
use auth_core.Persistence.SessionLaws.Run.{Row}
use native.Mathlib.Nat.{le_trans}

abbrev lock_family : ℕ → String → RefreshTokenFamily → RefreshTokenFamily
lock_family now reason f = record f {
  revoked_at = some (or_else f.revoked_at now);
  revocation_reason = some (or_else f.revocation_reason reason);
}

abbrev lock_session : ℕ → Session → Session
lock_session now s = record s { revoked_at = some (or_else s.revoked_at now) }

module _ (user_id now : ℕ) (reason : String) where
  abbrev passes : (ℕ → Bool) → Row → Bool
  passes q r = not_revoked_for user_id r && q r.1.session_id

  abbrev counted : (ℕ → Bool) → Database → ℕ
  counted q db = length (rows_where (passes q) (join_family db.families db.sessions))

  family_of-locked :
      (fid id : ℕ) (families : List RefreshTokenFamily) (s : Session)
      → (elim (family_of
          (update_where (λ f. f.family_id == fid) (lock_family now reason) families)
          id) [ none ↦ false | some f ↦ not_revoked_for user_id (f, s) ])
        ≡ true
      → (family_of (update_where (λ f. f.family_id == fid) (lock_family now reason) families) id)
        ≡ family_of families id
  family_of-locked fid id [] s e = refl
  family_of-locked fid id (f ∷ fs) s e = ground (arith, family_of-locked fid id fs s)

  join-locked :
      (q : ℕ → Bool) (fid sid : ℕ) (families : List RefreshTokenFamily) (ss : List Session)
      → length (
          rows_where (passes q) (
            join_family
              (update_where (λ f. f.family_id == fid) (lock_family now reason) families)
              (update_where (λ s. s.session_id == sid) (lock_session now) ss)))
        ≤ length (rows_where (passes (λ id. not (id == sid) && q id)) (join_family families ss))
  join-locked q fid sid families [] = omega arith
  join-locked q fid sid families (s ∷ ss) =
      ground (arith, family_of-locked fid s.family_id families s, join-locked q fid sid families ss)

  revoke_each-counted :
      (rs : List Row) (db : Database)
      → counted (λ id. true) (revoke_each now reason rs db) ≤ counted (spared rs) db
  unfolding revoke_each revoke_locked
  revoke_each-counted [] db = omega arith
  revoke_each-counted ((f, s) ∷ rs) db =
      le_trans (revoke_each-counted rs (revoke_locked now reason (f, s) db))
        (join-locked (spared rs) f.family_id s.session_id db.families db.sessions)

  -- With every row that passes revoked, none is left.
  none_left :
      (db : Database)
      → counted
          (λ id. true)
          (revoke_each now reason
            (rows_where (not_revoked_for user_id) (join_family db.families db.sessions))
            db)
        ≡ 0
  none_left db =
      let joined : List Row = join_family db.families db.sessions in
      let rs : List Row = rows_where (not_revoked_for user_id) joined in
      let kept : Row → Bool = λ r. spared rs r.1.session_id in
      omega (
        arith,
        revoke_each-counted rs db,
        ap length (rows_where-and (not_revoked_for user_id) kept joined),
        ap length (rows_where-none kept rs (not_spared_self rs)),
      )

  listed_counts :
      (later : ℕ) (r : Row)
      → (r.1.user_id == user_id && is_active later r) ≡ true
      → passes (λ id. true) r ≡ true
  listed_counts later (f, s) e = ground arith

nil_of_length {ℓ} : {A : Type ℓ} (xs : List A) → length xs ≡ 0 → xs ≡ []
nil_of_length [] e = refl
nil_of_length (x ∷ xs) e = absurd (omega arith)

-- After `revoke_all`, at any time, the user's list of sessions is empty.
pub list_sessions-revoke_all :
    (user_id now later : ℕ) (reason : String) (db : Database)
    → list_sessions user_id later (revoke_all user_id reason now db).1 ≡ []
unfolding list_sessions revoke_all
list_sessions-revoke_all user_id now later reason db =
    let db' = (revoke_all user_id reason now db).1 in
    let joined : List Row = join_family db'.families db'.sessions in
    let listed : Row → Bool = λ r. r.1.user_id == user_id && is_active later r in
    rw (
      nil_of_length (rows_where listed joined) (
        omega (
          arith,
          none_left user_id now reason db,
          length-rows_where_mono listed (passes user_id now reason (λ id. true))
              (listed_counts user_id now reason later) joined,
        )))
