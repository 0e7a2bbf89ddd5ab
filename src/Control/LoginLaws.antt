-- ===== src/Control/LoginLaws.antt =====
-- What the login workflows guarantee.
pub mod Risk
pub mod Password
pub mod Lockout
