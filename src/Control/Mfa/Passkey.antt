-- ===== src/Control/Mfa/Passkey.antt =====
-- control/mfa.py: passkeys. A workflow that is null is no member of the stored challenge.
use auth_core.Prelude.{ℕ, String, Bool, true, false, not, ◌==◌, Option, none, some, List, [], ◌∷◌}
use auth_core.Prelude.Action.{raise_if, require, gets, pure, ◌>>=◌, ◌>>◌}
use auth_core.Entity.Json.{Members, text, uuid, object, member, end, get}
use auth_core.Entity.Mfa.{MfaCompletion, StoredPasskey}
use auth_core.Security.{store_webauthn_challenge, consume_webauthn_challenge}
use auth_core.Persistence.MfaRepository.{passkeys, passkey, create_passkey, update_passkey_counter}
use auth_core.Persistence.LoginRepository.{present}
use auth_core.Control.Session.{is_text, uuid_of}
use auth_core.Control.Mfa.Setup.{
  MfaControl, uncaught, Act, in_redis, from_redis, transaction, workflow, active_profile,
  consume_workflow, require_enrollment_assurance, passkey_error, method_error, text_of, object_of,
}
use auth_core.Control.Mfa.Complete.{CompletionDraw, complete, ensure_backup_codes}
use auth_core.Control.Mfa.Enroll.{ConfirmationDraw, with_codes}

abbrev registration_payload : ℕ → String → String → Members → Members
registration_payload user_id label challenge workflow = member "purpose" (text "register") (
    member "user_id" (uuid user_id) (
      member "label" (text label)
        (member "challenge" (text challenge) (member "workflow" (object workflow) end))))

abbrev workflow_member : Option Members → Members
workflow_member none = end
workflow_member (some workflow) = member "workflow" (object workflow) end

abbrev authentication_payload : String → Option Members → Members
authentication_payload challenge workflow =
    member "purpose" (text "authenticate")
      (member "challenge" (text challenge) (workflow_member workflow))

-- Whether a workflow that is there is another user's.
abbrev pub is_foreign : ℕ → Option Members → Bool
is_foreign user_id none = false
is_foreign user_id (some workflow) = elim (uuid_of (get "user_id" workflow)) [
  | none ↦ true
  | some u ↦ not (u == user_id)
]

abbrev effective_workflow : ℕ → Option Members → Members
effective_workflow user_id (some workflow) = workflow
effective_workflow user_id none =
    member "decision" (text "passkey_primary") (member "user_id" (uuid user_id) end)

abbrev no_passkeys : List StoredPasskey → Bool
no_passkeys [] = true
no_passkeys (p ∷ ps) = false

module _ (control : MfaControl) where
  -- With the challenge that WebAuthn draws, and the token under which it is stored.
  unfoldable pub passkey_registration_options :
      ℕ → String → String → String → String → Act control String
  passkey_registration_options now workflow_token label challenge token = do
    (payload, user_id) ← workflow control now workflow_token
    profile ← active_profile control user_id
    require_enrollment_assurance control payload user_id
    consumed ← consume_workflow control now workflow_token
    in_redis control (
        store_webauthn_challenge control.redis now token
          (registration_payload user_id label challenge consumed))
    pure token

  unfoldable pub confirm_passkey_registration :
      ℕ
      → String
      → control.webauthn.Credential
      → ℕ
      → ℕ
      → ConfirmationDraw
      → Act control MfaCompletion
  confirm_passkey_registration now challenge_token credential correlation_id mfa_id draw = do
    found ← from_redis control (consume_webauthn_challenge control.redis now challenge_token)
    payload ← require found passkey_error
    raise_if (not (is_text "register" (get "purpose" payload))) passkey_error
    user_id ← require (uuid_of (get "user_id" payload)) uncaught
    challenge ← require (text_of (get "challenge" payload)) passkey_error
    registration ← require (control.webauthn.verify_registration credential challenge) passkey_error
    label ← require (text_of (get "label" payload)) passkey_error
    created ← transaction control (create_passkey now user_id label registration mfa_id)
    raise_if (not created) passkey_error
    backup_codes ← ensure_backup_codes control now user_id draw.codes draw.backup_id
    payload_workflow ← require (object_of (get "workflow" payload)) uncaught
    completion ←
        complete control now user_id payload_workflow "passkey_enrollment" correlation_id
          draw.completion
    pure (with_codes backup_codes completion)

  -- The workflow of a second factor is consumed; a login by passkey alone has none.
  abbrev consumed_workflow : ℕ → Option String → Act control (Option Members)
  consumed_workflow now none = pure none
  consumed_workflow now (some workflow_token) = do
    (payload, user_id) ← workflow control now workflow_token
    credentials ← gets (λ w. passkeys user_id w.database)
    raise_if (no_passkeys credentials) method_error
    consumed ← consume_workflow control now workflow_token
    pure (some consumed)

  unfoldable pub passkey_authentication_options :
      ℕ → Option String → String → String → Act control String
  passkey_authentication_options now workflow_token challenge token = do
    consumed ← consumed_workflow now (present workflow_token)
    in_redis control (
        store_webauthn_challenge control.redis now token
          (authentication_payload challenge consumed))
    pure token

  unfoldable pub verify_passkey :
      ℕ → String → control.webauthn.Credential → ℕ → CompletionDraw → Act control MfaCompletion
  verify_passkey now challenge_token credential correlation_id draw = do
    found ← from_redis control (consume_webauthn_challenge control.redis now challenge_token)
    payload ← require found passkey_error
    raise_if (not (is_text "authenticate" (get "purpose" payload))) passkey_error
    credential_id ← require (control.webauthn.credential_id credential) passkey_error
    row ← gets (λ w. passkey credential_id w.database)
    stored ← require row passkey_error
    let of_workflow = object_of (get "workflow" payload)
    raise_if (is_foreign stored.user_id of_workflow) passkey_error
    challenge ← require (text_of (get "challenge" payload)) passkey_error
    verified ←
        require (control.webauthn.verify_authentication credential challenge stored) passkey_error
    updated ←
        transaction control
          (update_passkey_counter credential_id stored.sign_count verified.0 verified.1)
    raise_if (not updated) passkey_error
    complete control now stored.user_id (effective_workflow stored.user_id of_workflow) "passkey"
        correlation_id draw
