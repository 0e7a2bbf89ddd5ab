-- ===== src/Persistence/SessionLaws/TokenRow.antt =====
-- What it says of the tables that `rotate_refresh_token` finds a row, or is granted.
use auth_core.Prelude.{
  ℕ, ◌≡◌, false, some, arith, ◌==◌, is_some, find_row, ==→eq, Option-cases, inl, inr,
}
use auth_core.Prelude.Rows.{find_row_holds}
use auth_core.Entity.Session.{rotated}
use auth_core.Persistence.Tables.{Database, RefreshTokenFamily, RefreshToken, Session}
use auth_core.Persistence.SessionRepository.{
  family_of, Rotation, token_row, any_revoked, any_expired, other_client, replace_token, rotate_row,
  rotate_refresh_token,
}

pub record IsRow (token_hash : ℕ) (db : Database) (t : RefreshToken) (f : RefreshTokenFamily)
    (s : Session) : Type 0 where
  pub token : find_row (λ x. x.token_hash == token_hash) db.tokens ≡ some t
  pub family : family_of db.families t.family_id ≡ some f
  pub session : find_row (λ x. x.family_id == f.family_id) db.sessions ≡ some s
  pub same_family : f.family_id ≡ t.family_id

pub token_row-IsRow :
    (token_hash : ℕ) (db : Database) (t : RefreshToken) (f : RefreshTokenFamily) (s : Session)
    → token_row token_hash db ≡ some (t, f, s)
    → IsRow token_hash db t f s
unfolding token_row
token_row-IsRow h db t f s e =
    let family : family_of db.families t.family_id ≡ some f = ground arith in
    record {
      token = ground arith;
      family = family;
      session = ground arith;
      same_family =
          ==→eq f.family_id t.family_id
            (find_row_holds (λ x. x.family_id == t.family_id) db.families f family);
    }

-- A granted rotation found a row that passes every test, and has written its replacement.
pub record IsGranted (now : ℕ) (r : Rotation) (db : Database) : Type 0 where
  pub t : RefreshToken
  pub f : RefreshTokenFamily
  pub s : Session
  pub found : token_row r.token_hash db ≡ some (t, f, s)
  pub unused : is_some t.used_at ≡ false
  pub standing : any_revoked t f s ≡ false
  pub current : any_expired now r.idle_timeout_seconds t f s ≡ false
  pub same_client : other_client r f ≡ false
  pub written : (rotate_refresh_token now r db).1 ≡ replace_token now r (t, f, s) db

pub rotated-IsGranted :
    (now : ℕ) (r : Rotation) (db : Database)
    → (rotate_refresh_token now r db).0.status ≡ rotated
    → IsGranted now r db
unfolding rotate_refresh_token rotate_row
rotated-IsGranted now r db e = elim (Option-cases (token_row r.token_hash db)) [
  | inl missing ↦ ground arith
  | inr ((t, f, s), found) ↦ record {
    t = t;
    f = f;
    s = s;
    found = found;
    unused = ground arith;
    standing = ground arith;
    current = ground arith;
    same_client = ground arith;
    written = ground arith;
  }
]
