-- ===== src/Control/Login.antt =====
-- control/login.py: the workflows that log a user in.
mod Setup
mod Decision
mod Password
mod Phone
unfoldable pub use Setup.*
unfoldable pub use Decision.*
unfoldable pub use Password.*
unfoldable pub use Phone.*
