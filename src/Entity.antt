-- ===== src/Entity.antt =====
-- The values that the parts exchange: services/auth-api/src/auth_core/entity.
pub mod Session
pub mod Login
pub mod Recovery
pub mod Mfa
pub mod Text
pub mod PasswordPolicy
pub mod Json
pub mod User
