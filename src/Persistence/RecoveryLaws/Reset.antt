-- ===== src/Persistence/RecoveryLaws/Reset.antt =====
-- Tokens that reset a password: they work once, and the history that is kept of passwords.
use auth_core.Prelude.{
  ℕ, ◌≤◌, ◌≡◌, refl, String, Bool, true, false, ◌&&◌, Option, none, some, List, [], ◌∷◌, arith,
  ◌==◌, ltb, ==-refl, is_some, find_row, rows_where, update_where, length, Option-cases, inl, inr,
  ap, is_none,
}
use auth_core.Prelude.Rows.{
  Every, found_and, found_and-append, found_and-update_where, found_and-update_found,
  found_and-exists,
}
use auth_core.Entity.Recovery.{updated, invalid}
use auth_core.Persistence.Tables.{Database, Identity, EphemeralToken, TokenPurpose}
use auth_core.Persistence.RecoveryLaws.History.{new_row, remember-new, remember-few}
use auth_core.Persistence.RecoveryRepository.{
  consume_password_reset, issue_password_reset, apply_reset, is_reset_token, user_row, has_password,
  of_identity, is_of, is_reset, new_token,
}

-- The arguments of `issue_password_reset`.
pub record Issue : Type 0 where
  pub now : ℕ
  pub user_id : ℕ
  pub token_hash : ℕ
  pub purpose : TokenPurpose
  pub expires_at : ℕ
  pub correlation_id : ℕ
  pub actor : Option ℕ
  pub ticket_reference : Option String

abbrev pub issue_all : List Issue → Database → Database
issue_all [] db = db
issue_all (i ∷ is) db = issue_all is (
    issue_password_reset i.now i.user_id i.token_hash i.purpose i.expires_at i.correlation_id
      i.actor i.ticket_reference db)

issue-consumed :
    (h : ℕ) (i : Issue) (db : Database)
    → found_and (is_reset_token h) (λ x. is_some x.consumed_at) db.ephemeral_tokens ≡ true
    → found_and
        (is_reset_token h)
        (λ x. is_some x.consumed_at)
        (issue_password_reset i.now i.user_id i.token_hash i.purpose i.expires_at i.correlation_id
          i.actor i.ticket_reference db).ephemeral_tokens
      ≡ true
unfolding issue_password_reset
issue-consumed h i db e =
    found_and-append (is_reset_token h) (λ x. is_some x.consumed_at)
      (update_where (λ t. is_of i.user_id t.user_id && is_reset t.purpose && is_none t.consumed_at)
        (λ t. record t { consumed_at = some i.now }) db.ephemeral_tokens)
      (new_token i.user_id i.token_hash i.purpose i.ticket_reference i.expires_at ∷ [])
      (found_and-update_where (is_reset_token h) (λ x. is_some x.consumed_at)
        (λ t. is_of i.user_id t.user_id && is_reset t.purpose && is_none t.consumed_at)
        (λ t. record t { consumed_at = some i.now }) (λ x. refl) (λ x q. refl) db.ephemeral_tokens
        e)

issue_all-consumed :
    (h : ℕ) (is : List Issue) (db : Database)
    → found_and (is_reset_token h) (λ x. is_some x.consumed_at) db.ephemeral_tokens ≡ true
    → found_and (is_reset_token h) (λ x. is_some x.consumed_at) (issue_all is db).ephemeral_tokens
      ≡ true
issue_all-consumed h [] db e = e
issue_all-consumed h (i ∷ is) db e =
    issue_all-consumed h is
      (issue_password_reset i.now i.user_id i.token_hash i.purpose i.expires_at i.correlation_id
        i.actor i.ticket_reference db)
      (issue-consumed h i db e)

module _ (verify : String → String → Bool) where
  -- A reset that succeeds, under a new id of history and later than the passwords on record of the
  -- identity, records the new password, and leaves the identity four passwords on record at most.
  pub consume_password_reset-history :
      (now token_hash : ℕ) (password password_hash : String) (corr history_id user_id : ℕ)
      (db : Database) (t : EphemeralToken) (i : Identity)
      → find_row (is_reset_token token_hash) db.ephemeral_tokens ≡ some t
      → t.user_id ≡ some user_id
      → find_row (has_password user_id) db.identities ≡ some i
      → Every (λ h. (h.history_id == history_id) ≡ false) db.password_history
      → Every
          (λ h. ltb h.created_at now ≡ true)
          (rows_where (of_identity i.identity_id) db.password_history)
      → (consume_password_reset verify now token_hash password password_hash corr history_id db).0.0
        ≡ updated
      → (find_row
            (λ h. h.history_id == history_id)
            (consume_password_reset verify now token_hash password password_hash corr history_id
              db).1.password_history
          ≡ some (new_row now history_id i.identity_id password_hash))
        × (length (
              rows_where
                (of_identity i.identity_id)
                (consume_password_reset verify now token_hash password password_hash corr history_id
                  db).1.password_history)
            ≤ 4)
  unfolding consume_password_reset apply_reset
  consume_password_reset-history now h password password_hash corr hid user_id db t i found user
        ident fresh older done =
      elim (Option-cases (user_row user_id db)) [
        | inl gone ↦ absurd (ground arith)
        | inr (u, account) ↦ (
          ground (
            arith,
            remember-new now hid i.identity_id password_hash db.password_history fresh older,
          ),
          ground (arith, remember-few now hid i.identity_id password_hash db.password_history),
        )
      ]

  marked :
      (now h : ℕ) (t : EphemeralToken) (ts : List EphemeralToken)
      → find_row (is_reset_token h) ts ≡ some t
      → found_and
          (is_reset_token h)
          (λ x. is_some x.consumed_at)
          (update_where
            (λ x. x.token_hash == t.token_hash)
            (λ x. record x { consumed_at = some now })
            ts)
        ≡ true
  marked now h t ts e =
      found_and-update_found (is_reset_token h) (λ x. is_some x.consumed_at)
        (λ x. x.token_hash == t.token_hash) (λ x. record x { consumed_at = some now }) (λ x. refl)
        ts t e (==-refl t.token_hash) refl

  consumed_after :
      (now h : ℕ) (password password_hash : String) (corr hid : ℕ) (db : Database)
      → (consume_password_reset verify now h password password_hash corr hid db).0.0 ≡ updated
      → found_and
          (is_reset_token h)
          (λ x. is_some x.consumed_at)
          (consume_password_reset verify now h password password_hash corr hid
            db).1.ephemeral_tokens
        ≡ true
  unfolding consume_password_reset apply_reset
  consumed_after now h password password_hash corr hid db done =
      elim (Option-cases (find_row (is_reset_token h) db.ephemeral_tokens)) [
        | inl missing ↦ absurd (ground arith)
        | inr (t, found) ↦ ground (arith, marked now h t db.ephemeral_tokens found)
      ]

  consumed_is_invalid :
      (now h : ℕ) (password password_hash : String) (corr hid : ℕ) (db : Database)
      → found_and (is_reset_token h) (λ x. is_some x.consumed_at) db.ephemeral_tokens ≡ true
      → consume_password_reset verify now h password password_hash corr hid db
        ≡ ((invalid, none), db)
  unfolding consume_password_reset
  consumed_is_invalid now h password password_hash corr hid db e =
      let (t, found, used) =
        found_and-exists (is_reset_token h) (λ x. is_some x.consumed_at) db.ephemeral_tokens e in
      ground arith

  -- A token that reset a password is answered as invalid from then on, whatever password comes with
  -- it, and also after any number of tokens were issued since.
  pub reset_single_use :
      (now later : ℕ) (h : ℕ) (password password' hash hash' : String) (corr corr' hid hid' : ℕ)
      (issues : List Issue) (db : Database)
      → (consume_password_reset verify now h password hash corr hid db).0.0 ≡ updated
      → (consume_password_reset verify later h password' hash' corr' hid'
          (issue_all issues (consume_password_reset verify now h password hash corr hid db).1)).0
        ≡ (invalid, none)
  reset_single_use now later h password password' hash hash' corr corr' hid hid' issues db done =
      let after = (consume_password_reset verify now h password hash corr hid db).1 in
      ap (λ r. r.0)
        (consumed_is_invalid later h password' hash' corr' hid' (issue_all issues after)
          (issue_all-consumed h issues after (consumed_after now h password hash corr hid db done)))
