-- ===== src/Control/RecoveryLaws/Staff.antt =====
-- What the staff operations do without the role, and without recent strong authentication.
use auth_core.Prelude.{ℕ, ◌≡◌, refl, String, true, false}
use auth_core.Prelude.Action.{Action, raised}
use auth_core.Entity.Session.{AccessClaims}
use auth_core.Entity.Recovery.{
  RecoveryError, StaffRole, support_agent_l2, security_supervisor_l3, account_admin,
}
use auth_core.Persistence.RecoveryRepository.{staff_has_role}
use auth_core.Control.Recovery.{
  RecoveryControl, W, authorize, forbidden_error, recent_mfa_error, has_recent_mfa, unlock, suspend,
  support_recovery_link, initiate_mfa_reset, approve_mfa_reset, execute_mfa_reset, get_mfa_reset,
}

-- A staff operation raises this error and changes nothing.
abbrev pub Refuses : {W A : Type 0} → RecoveryError → W → Action RecoveryError W A → Type 0
Refuses e w m = m w ≡ (raised e, w)

module _ (control : RecoveryControl) where
  -- Every staff operation, with its arguments.
  pub record Requests : Type 0 where
    pub now : ℕ
    pub target : ℕ
    pub request_id : ℕ
    pub ticket : String
    pub reason : String
    pub correlation_id : ℕ
    pub recovery_token : String

  -- All seven are refused with the error, in this world.
  abbrev pub AllRefused : RecoveryError → AccessClaims → Requests → W control → Type 0
  AllRefused e claims q w =
      Refuses e w (unlock control claims q.target q.ticket q.correlation_id)
      × Refuses e w (suspend control q.now claims q.target q.ticket q.reason q.correlation_id)
      × Refuses e w (
          support_recovery_link control q.now claims q.target q.ticket q.reason q.correlation_id
            q.recovery_token)
      × Refuses e w
          (initiate_mfa_reset control q.now claims q.target q.ticket q.correlation_id q.request_id)
      × Refuses e w (approve_mfa_reset control q.now claims q.request_id q.correlation_id)
      × Refuses e w (execute_mfa_reset control q.now claims q.request_id q.correlation_id)
      × Refuses e w (get_mfa_reset control claims q.request_id)

  -- A member of staff whose roles are all missing or revoked can do nothing: each of the seven
  -- operations raises the same error, and leaves the database and Redis as they are.
  pub without_role_refused :
      (claims : AccessClaims) (q : Requests) (w : W control)
      → has_recent_mfa claims.assurance ≡ true
      → ((role : StaffRole) → staff_has_role claims.user_id role w.database ≡ false)
      → AllRefused forbidden_error claims q w
  unfolding authorize unlock suspend support_recovery_link initiate_mfa_reset approve_mfa_reset
      execute_mfa_reset get_mfa_reset
  without_role_refused claims q w recent none =
      let l2 = none support_agent_l2 in
      let l3 = none security_supervisor_l3 in
      let admin = none account_admin in
      rw (recent, l2, l3, admin) (refl, refl, refl, refl, refl, refl, refl)

  -- Whatever roles the member of staff has, without recent strong authentication each of the seven
  -- operations raises the other error, and leaves the database and Redis as they are.
  pub without_recent_mfa_refused :
      (claims : AccessClaims) (q : Requests) (w : W control)
      → has_recent_mfa claims.assurance ≡ false
      → AllRefused recent_mfa_error claims q w
  unfolding authorize unlock suspend support_recovery_link initiate_mfa_reset approve_mfa_reset
      execute_mfa_reset get_mfa_reset
  without_recent_mfa_refused claims q w stale = rw stale (refl, refl, refl, refl, refl, refl, refl)
