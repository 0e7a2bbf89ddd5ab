-- ===== src/Persistence/SessionRepository.antt =====
-- infrastructure/persistence/session_repository.py, by method: `Create`, `Rotate` and `Access`.
mod Create
mod Rotate
mod Access
unfoldable pub use Create.*
unfoldable pub use Rotate.*
unfoldable pub use Access.*
