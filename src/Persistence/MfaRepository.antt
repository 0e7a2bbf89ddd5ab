-- ===== src/Persistence/MfaRepository.antt =====
-- infrastructure/persistence/mfa_repository.py.
mod Factors
mod Totp
mod Codes
mod Passkeys
unfoldable pub use Factors.*
unfoldable pub use Totp.*
unfoldable pub use Codes.*
unfoldable pub use Passkeys.*
