-- ===== src/Persistence/RecoveryRepository.antt =====
-- infrastructure/persistence/recovery_repository.py, by use. A method that may raise is an action on
-- the tables, `atomic` where the source opens a transaction. The context that row-level security
-- reads is left out.
mod Accounts
mod Reset
mod Contact
mod Governed
unfoldable pub use Accounts.*
unfoldable pub use Reset.*
unfoldable pub use Contact.*
unfoldable pub use Governed.*
