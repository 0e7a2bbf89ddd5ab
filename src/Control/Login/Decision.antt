-- ===== src/Control/Login/Decision.antt =====
-- control/login.py: what every primary login ends with.
use auth_core.Prelude.{ℕ, String, Option, none, some, List}
use auth_core.Prelude.Action.{Action, Outcome, ok, raised, pure, gets, modify, ◌>>=◌, ◌>>◌}
use auth_core.Entity.Json.{Members, text, uuid, texts, member, end}
use auth_core.Entity.Login.{
  LoginDecisionType, decision_value, RiskLevel, risk_value, LoginIdentity, DeviceSignals,
  LoginDecision,
}
use auth_core.Security.{State, store_login_workflow}
use auth_core.Persistence.LoginRepository.{
  present, password_identity, device_signals, update_password_hash,
}
use auth_core.Persistence.LoginRepository
use auth_core.Persistence.Tables.{Database}
use auth_core.Control.Session.{World}
use auth_core.Control.Login.Setup.{
  LoginControl, LoginFault, uncaught, risk_of, decision_of, event_of, outcome_of, with_context,
}

module _ (control : LoginControl) where
  abbrev pub W : Type 0
  W = World (State control.redis)

  abbrev pub Act : Type 0 → Type 0
  Act A = Action LoginFault W A

  abbrev pub in_redis : (State control.redis → State control.redis) → W → W
  in_redis f w = record w { redis = f w.redis }

  abbrev pub audit : String → String → ℕ → Option ℕ → Members → Act Unit
  audit event_type outcome correlation_id user_id metadata = modify (λ w. record w {
    database = LoginRepository.audit event_type outcome correlation_id user_id metadata w.database;
  })

  abbrev payload : LoginIdentity → LoginDecisionType → RiskLevel → List String → String → Members
  payload identity decision risk methods method = member "user_id" (uuid identity.user_id) (
      member "decision" (text (decision_value decision)) (
        member "risk" (text (risk_value risk))
          (member "allowed_methods" (texts methods) (member "primary_method" (text method) end))))

  -- `_workflow_decision`, with the token that it draws.
  unfoldable pub workflow_decision :
      ℕ
      → LoginIdentity
      → LoginDecisionType
      → RiskLevel
      → List String
      → String
      → ℕ
      → Members
      → String
      → Act LoginDecision
  workflow_decision now identity decision risk methods method correlation_id context token = do
    modify (
        in_redis (
          store_login_workflow control.redis now token
            (with_context context (payload identity decision risk methods method))))
    audit (event_of decision) (outcome_of decision) correlation_id (some identity.user_id) (
        member "method" (text method) (
          member "risk" (text (risk_value risk))
            (member "decision" (text (decision_value decision)) end)))
    pure (record {
      decision = decision;
      risk = risk;
      workflow_token = token;
      allowed_methods = methods;
    })

  abbrev committed : W → Option (DeviceSignals × Database) → Outcome LoginFault DeviceSignals × W
  committed w none = (raised uncaught, w)
  committed w (some (s, db)) = (ok s, record w { database = db })

  abbrev signals : ℕ → ℕ → ℕ → Option String → Act DeviceSignals
  signals now user_id fingerprint_hash ip_address w =
      committed w (device_signals control.inet now user_id fingerprint_hash ip_address w.database)

  -- `_primary_decision`
  unfoldable pub primary_decision :
      ℕ → LoginIdentity → String → Option String → String → ℕ → String → Act LoginDecision
  unfolding workflow_decision
  primary_decision now identity fingerprint ip_address method correlation_id token = do
    signals ← signals now identity.user_id (control.signal_hash fingerprint) ip_address
    methods ← gets (λ w. LoginRepository.fallback_methods identity.user_id w.database)
    workflow_decision now identity (decision_of (risk_of signals)) (risk_of signals) methods method
        correlation_id end token
