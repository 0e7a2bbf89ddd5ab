-- ===== src/Persistence/SessionLaws/OneToken.antt =====
-- Along every run, a family has at most one refresh token that could still be rotated.
use auth_core.Prelude.{
  ℕ, ◌+◌, ◌≤◌, ◌≡◌, refl, Bool, true, false, ◌&&◌, some, List, [], ◌∷◌, ◌++◌, arith, ◌==◌, ==→eq,
  is_none, is_some, length, rows_where, find_row, update_where, Bool-cases, inl, inr,
}
use auth_core.Prelude.Rows.{Every}
use native.Mathlib.Nat.{le_trans}
use auth_core.Persistence.Tables.{Database, RefreshToken, RefreshTokenFamily, Session}
use auth_core.Persistence.SessionRepository.{
  evict, NewSession, add_session, revoke_locked, Rotation, token_row, any_revoked, replace_token,
  set_scope, audit,
}
use auth_core.Persistence.SessionLaws.Run.{IsNew, IsKept, Reach, Reach-kept}
use auth_core.Persistence.SessionLaws.TokenRow.{token_row-IsRow}

-- A token of a family that is neither used nor revoked.
abbrev pub usable : ℕ → RefreshToken → Bool
usable id t = t.family_id == id && is_none t.used_at && is_none t.revoked_at

abbrev pub usable_count : ℕ → List RefreshToken → ℕ
usable_count id ts = length (rows_where (usable id) ts)

abbrev pub HasOneToken : Database → Type 0
HasOneToken db = (id : ℕ) → usable_count id db.tokens ≤ 1

-- An update that leaves what it touches revoked.
usable_count-update :
    (id : ℕ) (w : RefreshToken → Bool) (f : RefreshToken → RefreshToken)
    → ((x : RefreshToken) → is_none (f x).revoked_at ≡ false)
    → (ts : List RefreshToken) → usable_count id (update_where w f ts) ≤ usable_count id ts
usable_count-update id w f revokes [] = omega arith
usable_count-update id w f revokes (t ∷ ts) =
    ground (arith, revokes t, usable_count-update id w f revokes ts)

-- If it touches a usable token, one fewer is left.
usable_count-update_found :
    (id : ℕ) (p w : RefreshToken → Bool) (f : RefreshToken → RefreshToken)
    → ((x : RefreshToken) → is_none (f x).revoked_at ≡ false)
    → (ts : List RefreshToken) (t : RefreshToken) → find_row p ts ≡ some t
    → w t ≡ true
    → usable id t ≡ true
    → usable_count id (update_where w f ts) + 1 ≤ usable_count id ts
usable_count-update_found id p w f revokes [] t e hit u = ground arith
usable_count-update_found id p w f revokes (x ∷ ts) t e hit u = ground (
  arith,
  revokes x,
  usable_count-update id w f revokes ts,
  usable_count-update_found id p w f revokes ts t,
)

usable_count-append :
    (id : ℕ) (ts : List RefreshToken) (t : RefreshToken)
    → usable_count id (ts ++ t ∷ []) ≡ usable_count id ts + usable_count id (t ∷ [])
usable_count-append id [] t = omega arith
usable_count-append id (x ∷ ts) t = ground (arith, usable_count-append id ts t)

usable_count-new :
    (id : ℕ) (ts : List RefreshToken)
    → Every (λ t. (t.family_id == id) ≡ false) ts
    → usable_count id ts ≡ 0
usable_count-new id [] new = refl
usable_count-new id (t ∷ ts) new = ground (arith, usable_count-new id ts new.1)

add-HasOneToken :
    (now : ℕ) (n : NewSession) (db : Database)
    → IsNew n db
    → HasOneToken db
    → HasOneToken (add_session now n db)
add-HasOneToken now n db new one id = elim (Bool-cases (n.family_id == id)) [
  | inl same ↦ rw (usable_count-append) (
      ground (
        arith,
        ==→eq n.family_id id same,
        usable_count-new n.family_id db.tokens new.no_token_of_family,
      ))
  | inr other ↦ rw (usable_count-append) (ground (arith, one id))
]

replace-HasOneToken :
    (now : ℕ) (r : Rotation) (t : RefreshToken) (f : RefreshTokenFamily) (s : Session)
    (db : Database)
    → token_row r.token_hash db ≡ some (t, f, s)
    → is_some t.used_at ≡ false
    → any_revoked t f s ≡ false
    → HasOneToken db
    → HasOneToken (replace_token now r (t, f, s) db)
unfolding replace_token
replace-HasOneToken now r t f s db found unused standing one id =
    let row = token_row-IsRow r.token_hash db t f s found in
    let kill : RefreshToken → RefreshToken =
      λ x. record x { used_at = some now; revoked_at = some now } in
    let hit : RefreshToken → Bool = λ x. x.refresh_token_id == t.refresh_token_id in
    rw (usable_count-append) (
      ground (
        arith,
        one id,
        row.same_family,
        usable_count-update id hit kill (λ x. refl) db.tokens,
        usable_count-update_found id (λ x. x.token_hash == r.token_hash) hit kill (λ x. refl)
            db.tokens t row.token,
      ))

abbrev revoke_at : ℕ → RefreshToken → RefreshToken
revoke_at now x = record x { revoked_at = some now }

HasOneToken-kept : IsKept HasOneToken
unfolding evict revoke_locked set_scope audit
HasOneToken-kept = record {
  by_evict = λ now (f, s) db one id.
      le_trans
        (usable_count-update id (λ x. x.family_id == f.family_id) (revoke_at now) (λ x. refl)
          db.tokens)
        (one id);
  by_add = add-HasOneToken;
  by_lock = λ now reason (f, s) db one id.
      le_trans
        (usable_count-update id (λ x. x.family_id == f.family_id && is_none x.revoked_at)
          (revoke_at now) (λ x. refl) db.tokens)
        (one id);
  by_replace = replace-HasOneToken;
  by_scope = λ w j now s db one. one;
  by_audit = λ ev o c u m db one. one;
}

-- From tables where no family has more than one token that is neither used nor revoked, every run of
-- transactions leads to such tables.
pub Reach-HasOneToken : {a b : Database} → Reach a b → HasOneToken a → HasOneToken b
Reach-HasOneToken run one = Reach-kept HasOneToken HasOneToken-kept run one
