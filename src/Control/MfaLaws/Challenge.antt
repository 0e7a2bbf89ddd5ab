-- ===== src/Control/MfaLaws/Challenge.antt =====
-- A challenge is good for one success.
use auth_core.Prelude.{ℕ, ◌≤◌, ◌≡◌, refl, String, not, none, Option-cases, Bool-cases, inl, inr}
use auth_core.Prelude.Action.{ok, raised, require, raise_if, gets}
use auth_core.Redis.{KeyName}
use auth_core.Redis.Laws.{entry-delete_self}
use auth_core.Entity.Json.{Members, get}
use auth_core.Entity.Mfa.{MfaMethod, method_value, MfaCompletion}
use auth_core.Security.{State, get_mfa_challenge, consume_mfa_challenge, store_login_workflow}
use auth_core.Security.Keys
use auth_core.Persistence.Tables.{Database}
use auth_core.Control.Session.{is_text, uuid_of}
use auth_core.Control.Mfa.{
  MfaControl, W, CompletionDraw, challenge_error, verify_challenge, finish_challenge, complete,
  link_identity, session_workflow, method_of, check_code, fail_unless, object_of, text_of,
  workflow_error, provider_named, uncaught,
}
use auth_core.Persistence.MfaRepository.{link_oidc_identity}
use auth_core.Prelude.Kept.{Keeps, Keeps-bind, Keeps-require, HoldsIfOk-bind}

module _ (control : MfaControl) (challenge_token : String) where
  abbrev key : KeyName
  key = (Keys.mfa_challenge control.redis.opaque challenge_token).name

  IsGone : ℕ → W control → Type 0
  IsGone now w = control.redis.client.entry now key w.redis ≡ none

  link_identity-redis :
      (user_id correlation_id : ℕ) (workflow : Members) (method : String) (draw : CompletionDraw)
      → Keeps
          (λ (w : W control). w.redis)
          (link_identity control user_id workflow method correlation_id draw)
  unfolding link_identity
  link_identity-redis u corr workflow method draw =
      let R : W control → State control.redis = λ w. w.redis in
      Keeps-bind R (require (text_of (get "oidc_provider" workflow)) workflow_error) _
        (Keeps-require R _ workflow_error)
        λ provider.
          Keeps-bind R (require (text_of (get "oidc_subject" workflow)) workflow_error) _
            (Keeps-require R _ workflow_error)
            λ subject.
              Keeps-bind R (require (provider_named provider) workflow_error) _
                (Keeps-require R _ workflow_error)
                λ named. λ w.
                  elim (Bool-cases
                    (link_oidc_identity u named subject draw.identity_id w.database).0) [
                      | inl linked ↦ rw linked refl
                      | inr taken ↦ rw taken refl
                    ]

  session_workflow-IsGone :
      (now user_id correlation_id : ℕ) (method : String) (draw : CompletionDraw) (w : W control)
      → IsGone now w
      → IsGone now (session_workflow control now user_id method correlation_id draw w).1
  unfolding session_workflow IsGone store_login_workflow
  session_workflow-IsGone now u corr method draw w gone =
      rw (control.redis.client.entry_set, gone) refl

  complete-IsGone :
      (now user_id correlation_id : ℕ) (workflow : Members) (method : String)
      (draw : CompletionDraw) (w : W control)
      → IsGone now w
      → IsGone now (complete control now user_id workflow method correlation_id draw w).1
  unfolding complete IsGone
  complete-IsGone now u corr workflow method draw w gone =
      elim (Bool-cases (is_text "collision_proof_required" (get "decision" workflow))) [
        | inl collision ↦ rw (collision, link_identity-redis u corr workflow method draw w) gone
        | inr plain ↦ rw plain (session_workflow-IsGone now u corr method draw w gone)
      ]

  consumed-IsGone :
      (now : ℕ) (s : State control.redis) (db : Database)
      → IsGone now (record {
        redis = (consume_mfa_challenge control.redis now challenge_token s).1;
        database = db;
      })
  unfolding IsGone consume_mfa_challenge
  consumed-IsGone now s db = entry-delete_self control.redis.client now key s

  finish_challenge-IsGone :
      (now user_id correlation_id : ℕ) (method : MfaMethod) (draw : CompletionDraw) (w : W control)
      → IsGone now
          (finish_challenge control now challenge_token user_id method correlation_id draw w).1
  unfolding finish_challenge IsGone
  finish_challenge-IsGone now u corr method draw w =
      let r = consume_mfa_challenge control.redis now challenge_token w.redis in
      let w1 = record w { redis = r.1 } in
      let gone : IsGone now w1 = consumed-IsGone now w.redis w.database in
      elim (Option-cases r.0) [
        | inl missing ↦ rw missing gone
        | inr (payload, there) ↦ elim (Option-cases (object_of (get "workflow" payload))) [
          | inl none_ ↦ rw (there, none_) gone
          | inr (workflow, is_there) ↦
              rw (there, is_there)
                (complete-IsGone now u corr workflow (method_value method) draw w1 gone)
        ]
      ]

  -- A verification that succeeds ends with `finish_challenge`.
  succeeded :
      (now correlation_id : ℕ) (code : String) (draw : CompletionDraw) (w : W control)
      (c : MfaCompletion)
      → (verify_challenge control now challenge_token code correlation_id draw w).0 ≡ ok c
      → IsGone now (verify_challenge control now challenge_token code correlation_id draw w).1
  unfolding verify_challenge
  succeeded now corr code draw w c =
      let P = IsGone now in
      HoldsIfOk-bind P c (gets (λ v. get_mfa_challenge control.redis now challenge_token v.redis)) _
        w
        λ found w1. HoldsIfOk-bind P c (require found challenge_error) _ w1 λ payload w2.
          HoldsIfOk-bind P c
            (raise_if (not (is_text "verify" (get "purpose" payload))) challenge_error) _ w2
            λ x w3.
              HoldsIfOk-bind P c (require (uuid_of (get "user_id" payload)) uncaught) _ w3
                λ user_id w4.
                  HoldsIfOk-bind P c (require (method_of payload) uncaught) _ w4 λ method w5.
                    HoldsIfOk-bind P c
                      (check_code control now challenge_token user_id method payload code) _ w5
                      λ valid w6.
                        HoldsIfOk-bind P c
                          (fail_unless control valid now challenge_token user_id method payload)
                          (λ y.
                            finish_challenge control now challenge_token user_id method corr draw)
                          w6 λ y w7 e. finish_challenge-IsGone now user_id corr method draw w7

  no_challenge :
      (later correlation_id : ℕ) (code : String) (draw : CompletionDraw) (w : W control)
      → IsGone later w
      → (verify_challenge control later challenge_token code correlation_id draw w).0
        ≡ raised challenge_error
  unfolding verify_challenge IsGone get_mfa_challenge
  no_challenge later corr code draw w gone = rw gone refl

  still-IsGone : (now later : ℕ) (w : W control) → now ≤ later → IsGone now w → IsGone later w
  unfolding IsGone
  still-IsGone now later w le gone =
      rw (control.redis.client.entry_later now later key w.redis le, gone) refl

  -- A verification that succeeds consumes its challenge: with Redis as it left it, every later
  -- verification of the challenge is refused, whatever the code and the database.
  pub challenge_single_use :
      (now later correlation_id correlation_id' : ℕ) (code code' : String)
      (draw draw' : CompletionDraw) (w : W control) (c : MfaCompletion) (database : Database)
      → now ≤ later
      → (verify_challenge control now challenge_token code correlation_id draw w).0 ≡ ok c
      → (verify_challenge control later challenge_token code' correlation_id' draw' (record {
        redis = (verify_challenge control now challenge_token code correlation_id draw w).1.redis;
        database = database;
      })).0
        ≡ raised challenge_error
  unfolding IsGone
  challenge_single_use now later corr corr' code code' draw draw' w c database le done =
      let w1 = (verify_challenge control now challenge_token code corr draw w).1 in
      let w2 : W control = record { redis = w1.redis; database = database } in
      no_challenge later corr' code' draw' w2
        (still-IsGone now later w2 le (succeeded now corr code draw w c done))
