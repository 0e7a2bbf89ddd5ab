-- ===== src/Persistence/Tables.antt =====
-- infrastructure/persistence/models.py: the tables that the modelled repositories read and write.
-- Columns that only the database fills are left out, and a column with a fixed set of values is an
-- enumeration.
mod Accounts
mod Sessions
mod Factors
mod Recovery
unfoldable pub use Accounts.*
unfoldable pub use Sessions.*
unfoldable pub use Factors.*
unfoldable pub use Recovery.*
use auth_core.Prelude.{List}

pub record Database : Type 0 where
  pub users : List User
  pub identities : List Identity
  pub password_history : List PasswordHistory
  pub ephemeral_tokens : List EphemeralToken
  pub mfa_devices : List MfaDevice
  pub webauthn_credentials : List WebAuthnCredential
  pub trusted_devices : List TrustedDevice
  pub families : List RefreshTokenFamily
  pub tokens : List RefreshToken
  pub sessions : List Session
  pub governed_requests : List GovernedRequest
  pub staff_roles : List StaffRoleBinding
  pub contact_changes : List ContactChangeRequest
  pub audit_logs : List AuditLog
