-- ===== src/Persistence/SessionLaws/Refusals.antt =====
-- A refused rotation ends the family for good.
use auth_core.Prelude.{
  ℕ, ◌≡◌, refl, ◌⊎◌, String, Bool, true, false, some, arith, ◌==◌, find_row, ==→eq,
}
use auth_core.Prelude.Rows.{find_row_holds, found_and-update_self}
use auth_core.Entity.Session.{RotationStatus, invalid, reused, expired}
use auth_core.Persistence.Tables.{Database, RefreshTokenFamily, RefreshToken, Session}
use auth_core.Persistence.SessionRepository.{
  family_of, Rotation, token_row, rotate_row, rotate_refresh_token, revoke_locked,
}
use auth_core.Persistence.SessionLaws.Run.{Reach}
use auth_core.Persistence.SessionLaws.Families.{family_revoked, Reach-revoked}

-- The outcomes of a rotation that end the family.
abbrev pub ends_family : RotationStatus → Bool
ends_family reused = true
ends_family expired = true
ends_family RotationStatus.client_mismatch = true
ends_family _ = false

abbrev pub FamilyFound : ℕ → Database → RefreshToken × RefreshTokenFamily × Session → Type 0
FamilyFound token_hash db (t, f, s) =
    (find_row (λ x. x.token_hash == token_hash) db.tokens ≡ some t)
    × (family_of db.families t.family_id ≡ some f)

pub token_row-found :
    (token_hash : ℕ) (db : Database) (row : RefreshToken × RefreshTokenFamily × Session)
    → token_row token_hash db ≡ some row
    → FamilyFound token_hash db row
unfolding token_row
token_row-found h db (t, f, s) e = ground arith

revoke_locked-revokes :
    (id now : ℕ) (reason : String) (f g : RefreshTokenFamily) (s : Session) (db : Database)
    → family_of db.families id ≡ some g
    → f.family_id ≡ id
    → family_revoked id (revoke_locked now reason (f, s) db) ≡ true
unfolding revoke_locked
revoke_locked-revokes id now reason f g s db e same =
    found_and-update_self _ _ _ _ (λ x. refl) (λ x h. rw same h) (λ x. refl) db.families g e

rotate_row-ends :
    (now : ℕ) (r : Rotation) (t : RefreshToken) (f : RefreshTokenFamily) (s : Session)
    (db : Database)
    → family_of db.families t.family_id ≡ some f
    → ends_family (rotate_row now r (t, f, s) db).0.status ≡ true
    → family_revoked t.family_id (rotate_row now r (t, f, s) db).1 ≡ true
unfolding rotate_row
rotate_row-ends now r t f s db e ends =
    let same =
      ==→eq f.family_id t.family_id
        (find_row_holds (λ x. x.family_id == t.family_id) db.families f e) in
    ground (
      arith,
      revoke_locked-revokes t.family_id now "token_reuse" f f s db e same,
      revoke_locked-revokes t.family_id now "expired" f f s db e same,
      revoke_locked-revokes t.family_id now "client_mismatch" f f s db e same,
    )

-- A rotation of a token whose family is revoked is answered as a reuse or as invalid.
revoked_refuses :
    (now : ℕ) (r : Rotation) (t : RefreshToken) (db : Database)
    → find_row (λ x. x.token_hash == r.token_hash) db.tokens ≡ some t
    → family_revoked t.family_id db ≡ true
    → ((rotate_refresh_token now r db).0.status ≡ reused)
      ⊎ ((rotate_refresh_token now r db).0.status ≡ invalid)
unfolding rotate_refresh_token token_row rotate_row
revoked_refuses now r t db e rev = ground arith

-- Let a rotation of a stored token report a reuse, an expiry or a client mismatch. Then, after any
-- further transactions of the session repository, no token of its family is rotated: each is answered
-- as a reuse or as invalid.
pub refusal_ends_family :
    (now later : ℕ) (r r' : Rotation) (row : RefreshToken × RefreshTokenFamily × Session)
    (t' : RefreshToken) (db : Database) {db' : Database}
    → token_row r.token_hash db ≡ some row
    → ends_family (rotate_refresh_token now r db).0.status ≡ true
    → Reach (rotate_refresh_token now r db).1 db'
    → find_row (λ x. x.token_hash == r'.token_hash) db'.tokens ≡ some t'
    → t'.family_id ≡ row.0.family_id
    → ((rotate_refresh_token later r' db').0.status ≡ reused)
      ⊎ ((rotate_refresh_token later r' db').0.status ≡ invalid)
unfolding rotate_refresh_token
refusal_ends_family now later r r' (t, f, s) t' db {db'} found ends run e same =
    revoked_refuses later r' t' db' e (
      rw same (
        Reach-revoked t.family_id run (
          rw (found, rotate_refresh_token)
            (rotate_row-ends now r t f s db (token_row-found r.token_hash db (t, f, s) found).1
              (rw (found, rotate_refresh_token) at ends)))))
