-- ===== src/Control/Mfa.antt =====
-- control/mfa.py: the second factor of a login, and the factors of a user. What only describes a factor
-- to the user is left out: hints, provisioning URIs and the options of WebAuthn.
mod Setup
mod Complete
mod Factors
mod Challenge
mod Verify
mod Enroll
mod Passkey
unfoldable pub use Setup.*
unfoldable pub use Complete.*
unfoldable pub use Factors.*
unfoldable pub use Challenge.*
unfoldable pub use Verify.*
unfoldable pub use Enroll.*
unfoldable pub use Passkey.*
