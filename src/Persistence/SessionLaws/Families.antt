-- ===== src/Persistence/SessionLaws/Families.antt =====
-- A revoked token family stays revoked.
use auth_core.Prelude.{ℕ, ◌≡◌, refl, Bool, true, ◌==◌, is_some}
use auth_core.Prelude.Rows.{found_and, found_and-append, found_and-update_where}
use auth_core.Persistence.Tables.{Database}
use auth_core.Persistence.SessionRepository.{evict, revoke_locked, replace_token, set_scope, audit}
use auth_core.Persistence.SessionLaws.Run.{IsKept, Reach, Reach-kept}

-- The row of a family says that it is revoked.
abbrev pub family_revoked : ℕ → Database → Bool
family_revoked id db = found_and (λ f. f.family_id == id) (λ f. is_some f.revoked_at) db.families

abbrev IsRevoked : ℕ → Database → Type 0
IsRevoked id db = family_revoked id db ≡ true

IsRevoked-kept : (id : ℕ) → IsKept (IsRevoked id)
unfolding evict revoke_locked replace_token set_scope audit
IsRevoked-kept id = record {
  by_evict =
      λ now (f, s) db e. found_and-update_where _ _ _ _ (λ x. refl) (λ x h. refl) db.families e;
  by_add = λ now n db new e. found_and-append _ _ db.families _ e;
  by_lock = λ now reason (f, s) db e.
      found_and-update_where _ _ _ _ (λ x. refl) (λ x h. refl) db.families e;
  by_replace = λ now r t f s db found unused standing e. e;
  by_scope = λ w j now s db e. e;
  by_audit = λ ev o c u m db e. e;
}

pub Reach-revoked :
    (id : ℕ) {a b : Database} → Reach a b → family_revoked id a ≡ true → family_revoked id b ≡ true
Reach-revoked id run e = Reach-kept (IsRevoked id) (IsRevoked-kept id) run e
