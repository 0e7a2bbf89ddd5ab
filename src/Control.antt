-- ===== src/Control.antt =====
-- control: the workflows, over the repositories, Redis and the providers.
pub mod Session
pub mod Login
pub mod SessionLaws
pub mod LoginLaws
pub mod Recovery
pub mod RecoveryLaws
pub mod Mfa
pub mod MfaLaws
