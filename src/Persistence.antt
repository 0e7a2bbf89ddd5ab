-- ===== src/Persistence.antt =====
-- infrastructure/persistence: tables, and the repositories over them.
pub mod Tables
pub mod SessionRepository
pub mod LoginRepository
pub mod RecoveryRepository
pub mod MfaRepository
pub mod MfaLaws
pub mod RecoveryLaws
pub mod SessionLaws
