-- ===== src/Persistence/MfaLaws.antt =====
-- What the MFA repository guarantees.
pub mod Totp
pub mod Codes
pub mod Strong
