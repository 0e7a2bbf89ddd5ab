-- ===== src/Providers.antt =====
-- What the service wraps around third-party code: infrastructure/providers and infrastructure/security.
pub mod Totp
pub mod TotpLaws
pub mod Cipher
