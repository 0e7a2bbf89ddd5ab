-- ===== src/Control/MfaLaws/Recent.antt =====
-- Which methods count as recent strong authentication, from the completion of a challenge to the check
-- of the recovery control.
use auth_core.Prelude.{ℕ, ◌+◌, ◌*◌, ◌≤◌, ◌<◌, ◌≡◌, refl, Bool, true, false, some, arith}
use auth_core.Redis.{second, document}
use auth_core.Redis.Laws.{entry-set_self}
use auth_core.Entity.Json.{Members, get}
use auth_core.Entity.Mfa.{MfaMethod, totp, email_otp, sms_otp, passkey, backup_code, method_value}
use auth_core.Security.{store_login_workflow, consume_login_workflow}
use auth_core.Security.Keys
use auth_core.Control.Session.{is_text, assurance_of}
use auth_core.Control.Recovery.{has_recent_mfa}
use auth_core.Control.Mfa.{
  MfaControl, W, CompletionDraw, ready_workflow, complete, session_workflow,
}

-- What the check accepts.
abbrev pub counts_as_recent : MfaMethod → Bool
counts_as_recent totp = true
counts_as_recent passkey = true
counts_as_recent backup_code = true
counts_as_recent email_otp = false
counts_as_recent sms_otp = false

recent_of_method :
    (user_id : ℕ) (m : MfaMethod)
    → has_recent_mfa (assurance_of (ready_workflow user_id (method_value m))) ≡ counts_as_recent m
recent_of_method u totp = refl
recent_of_method u passkey = refl
recent_of_method u backup_code = refl
recent_of_method u email_otp = refl
recent_of_method u sms_otp = refl

module _ (control : MfaControl) where
  -- Let a challenge of a method be completed, for a workflow that resolves no collision. Then for 300
  -- seconds its token yields one workflow, and the assurance of a session from that workflow passes the
  -- check of recent strong authentication exactly for TOTP, passkeys and backup codes: not for the codes
  -- that are sent by email and SMS.
  pub complete-counts_as_recent :
      (now later user_id correlation_id : ℕ) (workflow : Members) (m : MfaMethod)
      (draw : CompletionDraw) (w : W control)
      → is_text "collision_proof_required" (get "decision" workflow) ≡ false
      → now ≤ later
      → later < now + 300 * second
      → ((consume_login_workflow control.redis later draw.token
            (complete control now user_id workflow
              (method_value m)
              correlation_id
              draw
              w).1.redis).0
          ≡ some (ready_workflow user_id (method_value m)))
        × (has_recent_mfa (assurance_of (ready_workflow user_id (method_value m)))
            ≡ counts_as_recent m)
  unfolding complete session_workflow store_login_workflow consume_login_workflow
  complete-counts_as_recent now later u corr workflow m draw w plain le lt =
      let k = (Keys.login_workflow control.redis.opaque draw.token).name in
      let stored = document (ready_workflow u (method_value m)) in
      let s' = control.redis.client.set now k stored 300 w.redis in
      (
        rw plain (
            ground (
              arith,
              control.redis.client.entry_later now later k s' le,
              entry-set_self control.redis.client now k w.redis stored 300,
            )),
        recent_of_method u m,
      )
