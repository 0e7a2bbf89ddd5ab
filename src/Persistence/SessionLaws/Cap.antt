-- ===== src/Persistence/SessionLaws/Cap.antt =====
-- `create_session` keeps a user at ten active sessions, by evicting the oldest.
use auth_core.Prelude.{
  ℕ, ◌+◌, ◌-◌, ◌≤◌, ◌≡◌, refl, ap, Bool, true, false, not, ◌&&◌, none, some, List, [], ◌∷◌, ◌++◌,
  arith, ◌==◌, length, rows_where, update_where, order_by,
}
use auth_core.Prelude.Rows.{
  Every, rows_where-order_by, length-order_by, rows_where-and, length-rows_where-take,
}
use native.Mathlib.Nat.{le_trans}
use auth_core.Persistence.SessionLaws.Run.{Row, IsNew, evict_all-IsNew}
use auth_core.Persistence.SessionLaws.Spared.{spared, not_spared_self}
use auth_core.Persistence.Tables.{Database, RefreshTokenFamily, Session}
use auth_core.Persistence.SessionRepository.{
  family_of, join_family, counts_against_cap, active_rows, evict, evict_all, overflow_rows,
  NewSession, new_family, new_session, add_session, create_session, max_active_sessions,
}

-- A family that is still unrevoked after an eviction was there before it, unchanged.
abbrev revoke_family_row : ℕ → RefreshTokenFamily → RefreshTokenFamily
revoke_family_row now f = record f { revoked_at = some now; revocation_reason = some "session_cap" }

module _ (user_id now : ℕ) where
  -- A session passes, with its family, and a test of its id does too.
  abbrev passes : (ℕ → Bool) → Row → Bool
  passes q r = counts_against_cap user_id now r && q r.1.session_id

  family_of-evicted :
      (fid id : ℕ) (families : List RefreshTokenFamily) (s : Session)
      → (elim (family_of
          (update_where (λ f. f.family_id == fid) (revoke_family_row now) families)
          id) [ none ↦ false | some f ↦ counts_against_cap user_id now (f, s) ])
        ≡ true
      → (family_of (update_where (λ f. f.family_id == fid) (revoke_family_row now) families) id)
        ≡ family_of families id
  family_of-evicted fid id [] s e = refl
  family_of-evicted fid id (f ∷ fs) s e = ground (arith, family_of-evicted fid id fs s)

  join-evicted :
      (q : ℕ → Bool) (fid sid : ℕ) (families : List RefreshTokenFamily) (ss : List Session)
      → length (
          rows_where (passes q) (
            join_family (update_where (λ f. f.family_id == fid) (revoke_family_row now) families) (
              update_where
                (λ s. s.session_id == sid)
                (λ s. record s { revoked_at = some now })
                ss)))
        ≤ length (rows_where (passes (λ id. not (id == sid) && q id)) (join_family families ss))
  join-evicted q fid sid families [] = omega arith
  join-evicted q fid sid families (s ∷ ss) =
      ground
        (arith, family_of-evicted fid s.family_id families s, join-evicted q fid sid families ss)

  abbrev counted : (ℕ → Bool) → Database → ℕ
  counted q db = length (rows_where (passes q) (join_family db.families db.sessions))

  evict-counted :
      (q : ℕ → Bool) (r : Row) (db : Database)
      → counted q (evict now r db) ≤ counted (λ id. not (id == r.1.session_id) && q id) db
  unfolding evict
  evict-counted q (f, s) db = join-evicted q f.family_id s.session_id db.families db.sessions

  evict_all-counted :
      (rs : List Row) (db : Database)
      → counted (λ id. true) (evict_all now rs db) ≤ counted (spared rs) db
  unfolding evict_all
  evict_all-counted [] db = omega arith
  evict_all-counted ((f, s) ∷ rs) db =
      le_trans (evict_all-counted rs (evict now (f, s) db)) (evict-counted (spared rs) (f, s) db)

  -- With the overflow evicted, nine active sessions are left at most.
  evicted-counted :
      (db : Database) → counted (λ id. true) (evict_all now (overflow_rows user_id now db) db) ≤ 9
  unfolding overflow_rows active_rows
  evicted-counted db =
      let live : List Row =
        rows_where (counts_against_cap user_id now) (join_family db.families db.sessions) in
      let sorted : List Row = order_by (λ r. r.1.created_at) live in
      let rs : List Row = overflow_rows user_id now db in
      let kept : Row → Bool = λ r. spared rs r.1.session_id in
      omega (
        arith,
        evict_all-counted rs db,
        ap length (
            rows_where-and (counts_against_cap user_id now) kept
              (join_family db.families db.sessions)),
        rows_where-order_by kept (λ r. r.1.created_at) live,
        length-rows_where-take kept (length sorted + 1 - 10) sorted (not_spared_self rs)
            (omega arith),
      )

  family_of-append :
      (id : ℕ) (f : RefreshTokenFamily) (families : List RefreshTokenFamily)
      → (id == f.family_id) ≡ false
      → family_of (families ++ f ∷ []) id ≡ family_of families id
  family_of-append id f [] h = ground arith
  family_of-append id f (g ∷ gs) h = ground (arith, family_of-append id f gs h)

  join-append :
      (p : Row → Bool) (f : RefreshTokenFamily) (s : Session) (families : List RefreshTokenFamily)
      (ss : List Session)
      → Every (λ x. (x.family_id == f.family_id) ≡ false) ss
      → length (rows_where p (join_family (families ++ f ∷ []) (ss ++ s ∷ [])))
        ≤ length (rows_where p (join_family families ss)) + 1
  join-append p f s families [] h = ground arith
  join-append p f s families (t ∷ ss) h =
      ground (arith, family_of-append t.family_id f families h.0, join-append p f s families ss h.1)

  counted-true :
      (rs : List Row)
      → rows_where (passes (λ id. true)) rs ≡ rows_where (counts_against_cap user_id now) rs
  counted-true [] = refl
  counted-true (r ∷ rs) = ground (arith, counted-true rs)

-- After `create_session`, given ids that no row has and no other transaction at the same time, the user
-- has ten sessions at most that count against the cap.
pub create_session-cap :
    (now : ℕ) (n : NewSession) (db : Database)
    → IsNew n db
    → length (active_rows n.user_id now (create_session now n db).1) ≤ max_active_sessions
unfolding active_rows create_session
create_session-cap now n db new =
    let rs : List Row = overflow_rows n.user_id now db in
    let kept : Database = evict_all now rs db in
    let after : Database = add_session now n kept in
    omega (
      arith,
      length-order_by (λ r. r.1.created_at)
          (rows_where (counts_against_cap n.user_id now)
            (join_family after.families after.sessions)),
      ap length (counted-true n.user_id now (join_family kept.families kept.sessions)),
      join-append n.user_id now (counts_against_cap n.user_id now) (new_family now n)
          (new_session now n) kept.families kept.sessions
          (evict_all-IsNew n now rs db new).no_session_of_family,
      evicted-counted n.user_id now db,
    )
