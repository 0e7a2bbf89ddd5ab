-- ===== src/Control/MfaLaws/Strong.antt =====
-- A user who has a strong factor keeps one.
use auth_core.Prelude.{
  ℕ, ◌≤◌, ◌≡◌, refl, String, ◌&&◌, some, List, arith, ◌==◌, leb, length, rows_where, find_row,
  Option-cases, Bool-cases, inl, inr,
}
use auth_core.Prelude.Action.{require}
use auth_core.Prelude.Rows.{find_row_holds}
use auth_core.Prelude.Kept.{Keeps, Keeps-bind, Keeps-require}
use auth_core.Entity.Json.{Members, text, member, end, get}
use auth_core.Security.{get_login_workflow, consume_login_workflow}
use auth_core.Persistence.Tables.{Database, MfaDevice, IdentityProvider}
use auth_core.Persistence.LoginRepository.{audit}
use auth_core.Persistence.MfaRepository.{MfaFactor, active_factors, link_oidc_identity}
use auth_core.Persistence.MfaRepository
use auth_core.Persistence.MfaLaws.Strong.{strong_count, revoke_factor-keeps_strong}
use auth_core.Control.Session.{is_text, uuid_of}
use auth_core.Control.Mfa.{
  MfaControl, W, CompletionDraw, workflow, consume_workflow, revoke_factor, remove_target,
  type_value, is_strong, strong_factors, complete, link_identity, session_workflow, text_of,
  workflow_error, provider_named,
}

link_oidc_identity-devices :
    (user_id : ℕ) (provider : IdentityProvider) (subject : String) (identity_id : ℕ) (db : Database)
    → (link_oidc_identity user_id provider subject identity_id db).1.mfa_devices ≡ db.mfa_devices
unfolding link_oidc_identity
link_oidc_identity-devices u provider subject id db = ground arith

active_factors-devices :
    (user_id : ℕ) (db db' : Database)
    → db.mfa_devices ≡ db'.mfa_devices
    → active_factors user_id db ≡ active_factors user_id db'
unfolding active_factors
active_factors-devices u db db' e = rw e refl

module _ (control : MfaControl) where
  abbrev devices : W control → List MfaDevice
  devices w = w.database.mfa_devices

  complete-devices :
      (now user_id correlation_id : ℕ) (payload : Members) (method : String) (draw : CompletionDraw)
      → Keeps devices (complete control now user_id payload method correlation_id draw)
  unfolding complete session_workflow link_identity audit
  complete-devices now u corr payload method draw w =
      elim (Bool-cases (is_text "collision_proof_required" (get "decision" payload))) [
        | inl collision ↦ rw collision (
            Keeps-bind devices (require (text_of (get "oidc_provider" payload)) workflow_error) _
              (Keeps-require devices _ workflow_error)
              (λ provider.
                Keeps-bind devices (require (text_of (get "oidc_subject" payload)) workflow_error) _
                  (Keeps-require devices _ workflow_error)
                  (λ subject.
                    Keeps-bind devices (require (provider_named provider) workflow_error) _
                      (Keeps-require devices _ workflow_error)
                      (λ named w'.
                        elim (Bool-cases
                          (link_oidc_identity u named subject draw.identity_id w'.database).0) [
                            | inl linked ↦ rw linked (
                                link_oidc_identity-devices u named subject draw.identity_id
                                  w'.database)
                            | inr taken ↦ rw taken (
                                link_oidc_identity-devices u named subject draw.identity_id
                                  w'.database)
                          ])))
              w)
        | inr plain ↦ rw plain refl
      ]

  remove_target-keeps :
      (now user_id correlation_id : ℕ) (workflow_token : String) (payload : Members)
      (target : MfaFactor) (draw : CompletionDraw) (w : W control)
      → 1 ≤ strong_count is_strong user_id w.database
      → 1
        ≤ strong_count is_strong user_id
            (MfaRepository.revoke_factor now user_id target.mfa_id w.database).1
      → 1
        ≤ strong_count is_strong user_id
            (remove_target control now workflow_token payload user_id target correlation_id draw
              w).1.database
  unfolding remove_target consume_workflow audit
  remove_target-keeps now u corr t payload target draw w held kept =
      let (taken, s') = consume_login_workflow control.redis now t w.redis in
      let (revoked, db') = MfaRepository.revoke_factor now u target.mfa_id w.database in
      elim (Option-cases taken) [
        | inl missing ↦ rw missing held
        | inr (consumed, there) ↦ elim (Bool-cases revoked) [
          | inr none_ ↦ rw (there, none_) kept
          | inl done ↦
              let w' : W control = record {
                redis = s';
                database =
                    audit "MFA_FACTOR_REVOKED" "success" corr (some u)
                      (member "factor_type" (text (type_value target.factor_type)) end) db';
              } in
              let same = complete-devices now u corr payload "factor_management" draw w' in
              rw (there, done)
                (rw
                  (active_factors-devices u
                    (complete control now u payload "factor_management" corr draw w').1.database db'
                    same)
                  kept)
        ]
      ]

  -- Let a user have an active strong factor, TOTP or a passkey. Then the user has one after any call that
  -- removes a factor whose key no two rows share, whatever the outcome of the call.
  pub revoke_factor_keeps_strong :
      (now factor_id user_id correlation_id : ℕ) (workflow_token : String) (payload : Members)
      (draw : CompletionDraw) (w : W control)
      → get_login_workflow control.redis now workflow_token w.redis ≡ some payload
      → uuid_of (get "user_id" payload) ≡ some user_id
      → length (rows_where (λ d. d.mfa_id == factor_id) w.database.mfa_devices) ≤ 1
      → 1 ≤ strong_count is_strong user_id w.database
      → 1
        ≤ strong_count is_strong user_id
            (revoke_factor control now workflow_token factor_id correlation_id draw w).1.database
  unfolding revoke_factor workflow
  revoke_factor_keeps_strong now id u corr t payload draw w found owner single held =
      let factors = active_factors u w.database in
      rw (found, owner)
        (elim (Bool-cases (is_text "mfa" (get "assurance" payload))) [
          | inr weak ↦ rw weak held
          | inl assured ↦ elim (Option-cases (find_row (λ f. f.mfa_id == id) factors)) [
            | inl missing ↦ rw (assured, missing) held
            | inr (target, there) ↦
                elim (Bool-cases
                  (is_strong target.factor_type && leb (length (strong_factors factors)) 1)) [
                    | inl last ↦ rw (assured, there, last) held
                    | inr other ↦
                        let key : target.mfa_id ≡ id =
                          ground
                            (arith, find_row_holds (λ f. f.mfa_id == id) factors target there) in
                        let kept =
                          revoke_factor-keeps_strong is_strong u now id w.database target single
                            there held other in
                        rw (assured, there, other)
                          (remove_target-keeps now u corr t payload target draw w held
                            (rw key kept))
                  ]
          ]
        ])
