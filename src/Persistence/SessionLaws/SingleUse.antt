-- ===== src/Persistence/SessionLaws/SingleUse.antt =====
-- A refresh token is used once: after it was rotated, the session repository recognises it as a reuse.
use auth_core.Prelude.{
  ℕ, ◌≡◌, refl, sym, subst, Bool, true, ◌&&◌, some, List, [], ◌∷◌, arith, update_where, ◌==◌,
  ==-refl, ==→eq, is_some, is_none, or_else, find_row,
}
use auth_core.Prelude.Rows.{
  find_row_holds, found_and, found_and-append, found_and-update_where, found_and-update_found,
  found_and-of_find, found_and-exists,
}
use auth_core.Entity.Session.{rotated, reused}
use auth_core.Persistence.Tables.{Database, RefreshTokenFamily, RefreshToken, Session}
use auth_core.Persistence.SessionRepository.{
  evict, with_token, with_family, Rotation, token_row, rotate_row, rotate_refresh_token,
  replace_token, revoke_locked, set_scope, audit, replacement, touched,
}
use auth_core.Persistence.SessionLaws.Run.{IsKept, Reach, Reach-kept}
use auth_core.Persistence.SessionLaws.TokenRow.{token_row-IsRow, rotated-IsGranted}

-- The token with a digest is used and of a family, whose row and whose session are there.
record IsTraced (token_hash family_id : ℕ) (db : Database) : Type 0 where
  token :
      found_and
        (λ t. t.token_hash == token_hash)
        (λ t. is_some t.used_at && t.family_id == family_id)
        db.tokens
      ≡ true
  family : found_and (λ f. f.family_id == family_id) (λ f. true) db.families ≡ true
  session : found_and (λ s. s.family_id == family_id) (λ s. true) db.sessions ≡ true

and_left : (a b : Bool) → (a && b) ≡ true → a ≡ true
and_left a b e = ground arith

abbrev mark_used : ℕ → RefreshToken → RefreshToken
mark_used now x = record x { used_at = some now; revoked_at = some now }

stays_used : (a b : Bool) → (a && b) ≡ true → b ≡ true
stays_used a b e = ground arith

token_replaced :
    (h id now : ℕ) (r : Rotation) (t : RefreshToken) (f : RefreshTokenFamily) (s : Session)
    (db : Database)
    → found_and (λ t. t.token_hash == h) (λ t. is_some t.used_at && t.family_id == id) db.tokens
      ≡ true
    → found_and
        (λ t. t.token_hash == h)
        (λ t. is_some t.used_at && t.family_id == id)
        (replace_token now r (t, f, s) db).tokens
      ≡ true
unfolding replace_token
token_replaced h id now r t f s db e =
    found_and-append (λ x. x.token_hash == h) (λ x. is_some x.used_at && x.family_id == id)
      (update_where (λ x. x.refresh_token_id == t.refresh_token_id) (mark_used now) db.tokens)
      (replacement now r t f ∷ [])
      (found_and-update_where (λ x. x.token_hash == h) (λ x. is_some x.used_at && x.family_id == id)
        (λ x. x.refresh_token_id == t.refresh_token_id) (mark_used now) (λ x. refl)
        (λ x q. stays_used (is_some x.used_at) (x.family_id == id) q) db.tokens e)

pub session_kept :
    (id session_id : ℕ) (f : Session → Session)
    → ((x : Session) → ((f x).family_id == id) ≡ (x.family_id == id))
    → (ss : List Session) → found_and (λ s. s.family_id == id) (λ s. true) ss ≡ true
    → found_and
        (λ s. s.family_id == id)
        (λ s. true)
        (update_where (λ x. x.session_id == session_id) f ss)
      ≡ true
session_kept id session_id f same ss e =
    found_and-update_where (λ s. s.family_id == id) (λ s. true) (λ x. x.session_id == session_id) f
      same (λ x q. refl) ss e

IsTraced-kept : (h id : ℕ) → IsKept (IsTraced h id)
unfolding evict revoke_locked replace_token set_scope audit
IsTraced-kept h id = record {
  by_evict = λ now (f, s) db tr. record {
    token =
        found_and-update_where (λ x. x.token_hash == h)
          (λ x. is_some x.used_at && x.family_id == id) (λ x. x.family_id == f.family_id)
          (λ x. record x { revoked_at = some now }) (λ x. refl) (λ x q. q) db.tokens tr.token;
    family = found_and-update_where _ _ _ _ (λ x. refl) (λ x q. refl) db.families tr.family;
    session =
        session_kept id s.session_id (λ x. record x { revoked_at = some now }) (λ x. refl)
          db.sessions tr.session;
  };
  by_add = λ now n db new tr. record {
    token = found_and-append _ _ db.tokens _ tr.token;
    family = found_and-append _ _ db.families _ tr.family;
    session = found_and-append _ _ db.sessions _ tr.session;
  };
  by_lock = λ now reason (f, s) db tr. record {
    token =
        found_and-update_where (λ x. x.token_hash == h)
          (λ x. is_some x.used_at && x.family_id == id)
          (λ x. x.family_id == f.family_id && is_none x.revoked_at)
          (λ x. record x { revoked_at = some now }) (λ x. refl) (λ x q. q) db.tokens tr.token;
    family = found_and-update_where _ _ _ _ (λ x. refl) (λ x q. refl) db.families tr.family;
    session =
        session_kept id s.session_id
          (λ x. record x { revoked_at = some (or_else x.revoked_at now) }) (λ x. refl) db.sessions
          tr.session;
  };
  by_replace = λ now r t f s db found unused standing tr. record {
    token = token_replaced h id now r t f s db tr.token;
    family = tr.family;
    session = session_kept id s.session_id (touched now r) (λ x. refl) db.sessions tr.session;
  };
  by_scope = λ w j now s db tr. record {
    token = tr.token;
    family = tr.family;
    session =
        session_kept id s.session_id
          (λ x. record x { org_id = some w; access_jti = j; last_activity_at = now }) (λ x. refl)
          db.sessions tr.session;
  };
  by_audit =
      λ ev o c u m db tr. record { token = tr.token; family = tr.family; session = tr.session };
}

-- The rows that a rotation was granted for are traced by its token's digest and family.
rotated-IsTraced :
    (now : ℕ) (r : Rotation) (t : RefreshToken) (f : RefreshTokenFamily) (s : Session)
    (db : Database)
    → token_row r.token_hash db ≡ some (t, f, s)
    → IsTraced r.token_hash t.family_id (replace_token now r (t, f, s) db)
unfolding replace_token
rotated-IsTraced now r t f s db found =
    let row = token_row-IsRow r.token_hash db t f s found in
    record {
      token =
          found_and-append (λ x. x.token_hash == r.token_hash)
            (λ x. is_some x.used_at && x.family_id == t.family_id)
            (update_where (λ x. x.refresh_token_id == t.refresh_token_id) (mark_used now) db.tokens)
            (replacement now r t f ∷ [])
            (found_and-update_found (λ x. x.token_hash == r.token_hash)
              (λ x. is_some x.used_at && x.family_id == t.family_id)
              (λ x. x.refresh_token_id == t.refresh_token_id) (mark_used now) (λ x. refl) db.tokens
              t row.token (==-refl t.refresh_token_id) (==-refl t.family_id));
      family =
          found_and-of_find (λ x. x.family_id == t.family_id) (λ x. true) db.families f row.family
            refl;
      session =
          found_and-update_where (λ x. x.family_id == t.family_id) (λ x. true)
            (λ x. x.session_id == s.session_id) (touched now r) (λ x. refl) (λ x q. refl)
            db.sessions
            (found_and-of_find (λ x. x.family_id == t.family_id) (λ x. true) db.sessions s
              (rw row.same_family at row.session) refl);
    }

assembled :
    (h id : ℕ) (t : RefreshToken) (f : RefreshTokenFamily) (s : Session) (db : Database)
    → find_row (λ x. x.token_hash == h) db.tokens ≡ some t
    → find_row (λ x. x.family_id == id) db.families ≡ some f
    → find_row (λ x. x.family_id == id) db.sessions ≡ some s
    → (t.family_id == id) ≡ true
    → token_row h db ≡ some (t, f, s)
unfolding token_row
assembled h id t f s db et ef es same =
    let same_t = ==→eq t.family_id id same in
    let same_f = ==→eq f.family_id id (find_row_holds (λ x. x.family_id == id) db.families f ef) in
    let ef' = subst (λ k. find_row (λ x. x.family_id == k) db.families ≡ some f) (sym same_t) ef in
    let es' = subst (λ k. find_row (λ x. x.family_id == k) db.sessions ≡ some s) (sym same_f) es in
    rw (et, with_token, ef', with_family, es')

-- The family of a traced token is found, and so is its session.
traced_family :
    (id h : ℕ) (db : Database)
    → IsTraced h id db
    → (t : RefreshToken) × (f : RefreshTokenFamily) × (s : Session) × (token_row h db
        ≡ some (t, f, s))
      × (is_some t.used_at ≡ true)
traced_family id h db tr =
    let (t, et, ut) =
      found_and-exists (λ x. x.token_hash == h) (λ x. is_some x.used_at && x.family_id == id)
        db.tokens tr.token in
    let (f, ef, _) = found_and-exists (λ x. x.family_id == id) (λ x. true) db.families tr.family in
    let (s, es, _) = found_and-exists (λ x. x.family_id == id) (λ x. true) db.sessions tr.session in
    (
      t,
      f,
      s,
      assembled h id t f s db et ef es (stays_used (is_some t.used_at) (t.family_id == id) ut),
      and_left (is_some t.used_at) (t.family_id == id) ut,
    )

-- Whatever is presented with a traced digest is a reuse.
IsTraced-reused :
    (now id : ℕ) (r : Rotation) (db : Database)
    → IsTraced r.token_hash id db
    → (rotate_refresh_token now r db).0.status ≡ reused
unfolding rotate_refresh_token rotate_row
IsTraced-reused now id r db tr =
    let (t, f, s, found, used) = traced_family id r.token_hash db tr in
    rw (found, rotate_refresh_token, used, rotate_row)

-- Let a rotation be granted. Then, after any further transactions of the session repository, a rotation
-- with the same token is answered as a reuse, whatever else it presents.
pub rotation_single_use :
    (now later : ℕ) (r r' : Rotation) (db : Database) {db' : Database}
    → (rotate_refresh_token now r db).0.status ≡ rotated
    → Reach (rotate_refresh_token now r db).1 db'
    → r'.token_hash ≡ r.token_hash
    → (rotate_refresh_token later r' db').0.status ≡ reused
rotation_single_use now later r r' db {db'} granted run same =
    let g = rotated-IsGranted now r db granted in
    let id = g.t.family_id in
    IsTraced-reused later id r' db' (
      rw same (
        Reach-kept (IsTraced r.token_hash id) (IsTraced-kept r.token_hash id) run
          (rw g.written (rotated-IsTraced now r g.t g.f g.s db g.found))))
