-- ===== src/Control/MfaLaws.antt =====
-- What the MFA control guarantees.
pub mod Recent
pub mod Lock
pub mod Challenge
pub mod Strong
pub mod Steps
