-- ===== src/Control/Session.antt =====
-- control/session.py: `SessionControl`, by use: `Setup`, `Issue`, `Refresh`, `Authenticate` and `Revoke`.
mod Setup
mod Issue
mod Refresh
mod Authenticate
mod Revoke
unfoldable pub use Setup.*
unfoldable pub use Issue.*
unfoldable pub use Refresh.*
unfoldable pub use Authenticate.*
unfoldable pub use Revoke.*
