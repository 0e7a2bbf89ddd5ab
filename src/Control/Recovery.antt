-- ===== src/Control/Recovery.antt =====
-- control/recovery.py: `RecoveryControl` and `SupportAdminControl`. Messages that are sent change no
-- state; where the source does not handle that sending fails, the error comes after what is shown.
mod Setup
mod Account
mod Admin
unfoldable pub use Setup.*
unfoldable pub use Account.*
unfoldable pub use Admin.*
