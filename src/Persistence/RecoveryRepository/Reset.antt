-- ===== src/Persistence/RecoveryRepository/Reset.antt =====
-- infrastructure/persistence/recovery_repository.py: issuing and consuming the tokens that reset a
-- password.
use auth_core.Prelude.{
  ℕ, ◌+◌, ◌-◌, String, Bool, true, false, not, ◌&&◌, ◌||◌, Option, none, some, List, [], ◌∷◌, ◌++◌,
  ◌==◌, leb, is_none, is_some, if◌then◌else◌, find_row, rows_where, update_where, order_by_desc,
  take, drop, any_row,
}
use auth_core.Entity.User.{UserState}
use auth_core.Entity.Recovery.{RecoveryUser, PasswordResetOutcome, updated, invalid, reused}
use auth_core.Entity.Json.{Members, text, member, end}
use auth_core.Persistence.Tables.{
  Database, User, Identity, PasswordHistory, EphemeralToken, TokenPurpose, password_reset,
  support_recovery,
}
use auth_core.Persistence.RecoveryRepository.Accounts.{
  user_row, update_user, recovery_user, audit, has_password,
}

abbrev pub password_history_limit : ℕ
password_history_limit = 5

-- `purpose.in_(("password_reset", "support_recovery"))`
abbrev pub is_reset : TokenPurpose → Bool
is_reset password_reset = true
is_reset support_recovery = true
is_reset _ = false

abbrev pub purpose_value : TokenPurpose → String
purpose_value password_reset = "password_reset"
purpose_value support_recovery = "support_recovery"
purpose_value TokenPurpose.email_verify = "email_verify"
purpose_value TokenPurpose.phone_verify = "phone_verify"
purpose_value TokenPurpose.invite = "invite"

abbrev pub is_of : ℕ → Option ℕ → Bool
is_of user_id none = false
is_of user_id (some u) = u == user_id

abbrev ticket_of : Option String → Members
ticket_of none = end
ticket_of (some t) = member "ticket_reference" (text t) end

abbrev issued_event : TokenPurpose → String
issued_event password_reset = "PASSWORD_RESET_REQUESTED"
issued_event _ = "SUPPORT_RECOVERY_ISSUED"

abbrev pub new_token : ℕ → ℕ → TokenPurpose → Option String → ℕ → EphemeralToken
new_token user_id token_hash purpose ticket_reference expires_at = record {
  user_id = some user_id;
  token_hash = token_hash;
  purpose = purpose;
  metadata = ticket_of ticket_reference;
  expires_at = expires_at;
  consumed_at = none;
}

-- Every token that was issued before is consumed. A ticket reference is no empty text.
unfoldable pub issue_password_reset :
    ℕ → ℕ → ℕ → TokenPurpose → ℕ → ℕ → Option ℕ → Option String → Database → Database
issue_password_reset now user_id token_hash purpose expires_at correlation_id actor ticket_reference
      db =
    audit (issued_event purpose) correlation_id user_id actor (ticket_of ticket_reference)
      (record db {
        ephemeral_tokens =
            update_where
              (λ t. is_of user_id t.user_id && is_reset t.purpose && is_none t.consumed_at)
              (λ t. record t { consumed_at = some now }) db.ephemeral_tokens
            ++ new_token user_id token_hash purpose ticket_reference expires_at ∷ [];
      })

abbrev pub is_reset_token : ℕ → EphemeralToken → Bool
is_reset_token token_hash t = t.token_hash == token_hash && is_reset t.purpose

-- The user of a token that is neither consumed nor expired.
abbrev pub usable_for : ℕ → Option EphemeralToken → Option (EphemeralToken × ℕ)
usable_for now none = none
usable_for now (some t) = elim t.user_id [
  | none ↦ none
  | some user_id ↦ if is_some t.consumed_at || leb t.expires_at now then none else some (t, user_id)
]

-- `user.state in {"suspended", "disabled", "anonymized"}`
abbrev pub is_barred : UserState → Bool
is_barred UserState.suspended = true
is_barred UserState.disabled = true
is_barred UserState.anonymized = true
is_barred _ = false

abbrev pub of_identity : ℕ → PasswordHistory → Bool
of_identity identity_id h = h.identity_id == identity_id

-- The history of an identity, the latest first.
unfoldable pub history_of : ℕ → List PasswordHistory → List PasswordHistory
history_of identity_id hs =
    order_by_desc (λ h. h.created_at) (rows_where (of_identity identity_id) hs)

abbrev pub is_listed : ℕ → List PasswordHistory → Bool
is_listed history_id hs = any_row (λ h. h.history_id == history_id) hs

-- The new row, and no more than the latest rows of the identity.
unfoldable pub remember : ℕ → ℕ → ℕ → String → List PasswordHistory → List PasswordHistory
unfolding history_of
remember now history_id identity_id password_hash hs =
    let added =
      hs
      ++ record {
        history_id = history_id;
        identity_id = identity_id;
        password_hash = password_hash;
        created_at = now;
      }
        ∷ [] in
    let old = drop (password_history_limit - 1) (history_of identity_id added) in
    rows_where (λ h. not (is_listed h.history_id old)) added

abbrev unlocked : UserState → UserState
unlocked UserState.locked = UserState.active
unlocked s = s

abbrev pub reset_user : User → User
reset_user u = record u { state = unlocked u.state; version = u.version + 1 }

-- The writes of a reset.
unfoldable pub apply_reset :
    ℕ → EphemeralToken → User → Identity → String → ℕ → ℕ → Database → Database
unfolding remember
apply_reset now token user identity password_hash correlation_id history_id db =
    audit "PASSWORD_RESET_COMPLETED" correlation_id user.user_id (some user.user_id)
      (member "source" (text (purpose_value token.purpose)) end)
      (update_user user.user_id reset_user (record db {
        ephemeral_tokens =
            update_where (λ t. t.token_hash == token.token_hash)
              (λ t. record t { consumed_at = some now }) db.ephemeral_tokens;
        identities =
            update_where (λ i. i.identity_id == identity.identity_id)
              (λ i. record i { password_hash = some password_hash; last_used_at = some now })
              db.identities;
        password_history =
            remember now history_id identity.identity_id password_hash db.password_history;
      }))

module _ (verify : String → String → Bool) where
  -- The password is one of the latest of the identity.
  unfoldable pub was_used : String → ℕ → Database → Bool
  unfolding history_of
  was_used password identity_id db =
      any_row (λ h. verify h.password_hash password)
        (take password_history_limit (history_of identity_id db.password_history))

  abbrev consume_for :
      ℕ
      → String
      → String
      → ℕ
      → ℕ
      → EphemeralToken
      → Option User
      → Option Identity
      → Database
      → (PasswordResetOutcome × Option RecoveryUser) × Database
  consume_for now password password_hash correlation_id history_id token (some u) (some i) db =
      if is_barred u.state
      then ((invalid, none), db)
      else if was_used password i.identity_id db
      then ((reused, some (recovery_user u)), db)
      else (
        (updated, some (recovery_user (reset_user u))),
        apply_reset now token u i password_hash correlation_id history_id db,
      )
  consume_for now password password_hash correlation_id history_id token _ _ db =
      ((invalid, none), db)

  unfoldable pub consume_password_reset :
      ℕ
      → ℕ
      → String
      → String
      → ℕ
      → ℕ
      → Database
      → (PasswordResetOutcome × Option RecoveryUser) × Database
  consume_password_reset now token_hash password password_hash correlation_id history_id db =
      elim (usable_for now (find_row (is_reset_token token_hash) db.ephemeral_tokens)) [
        | none ↦ ((invalid, none), db)
        | some (token, user_id) ↦
            consume_for now password password_hash correlation_id history_id token
              (user_row user_id db) (find_row (has_password user_id) db.identities) db
      ]
