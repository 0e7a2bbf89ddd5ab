-- ===== src/Lib.antt =====
-- auth-core: logins, second factors, recovery and sessions of the authentication service
-- services/auth-api (src/auth_core).
--
-- The service lets a user in by a login workflow, whose decision Redis holds, opens a session with a
-- short-lived access token and a family of refresh tokens, and takes sessions away again.
-- `SessionControl` calls the tables of PostgreSQL through the session repository, markers in Redis
-- through the security store, and the token provider; a request is authenticated against all three. `MFAControl` takes a login through its
-- second factor to a workflow that a session is created from. `RecoveryControl` and
-- `SupportAdminControl` change passwords, contacts and accounts, and shut the user out of every session.
--
-- Where each part is (paths from services/auth-api/src/auth_core):
--   Entity        entity/session.py, entity/user.py, entity/login.py, entity/mfa.py,
--                 entity/recovery.py and entity/password_policy.py; JSON documents; the patterns of
--                 phone numbers and codes (Text)
--   Redis         the server: `Redis` is a record of its commands and their laws, a parameter;
--                 Redis/Memory is a server that meets them
--   Security      infrastructure/redis_security.py: keys, Lua scripts, every method of the store
--   Persistence   infrastructure/persistence: models.py (Tables), session_repository.py
--                 (SessionRepository: Create, Rotate, Access; Persistence/SessionLaws is about it)
--                 login_repository.py (LoginRepository), recovery_repository.py
--                 (RecoveryRepository: Accounts, Reset, Contact, Governed; RecoveryLaws is about it)
--                 and mfa_repository.py (MfaRepository: Factors, Totp, Codes, Passkeys; MfaLaws is
--                 about it)
--   Tokens        infrastructure/security/tokens.py; PyJWT and its keys are the parameter `Jwt`, and
--                 Tokens/Plain shows that its laws can hold
--   Providers     infrastructure/providers/totp.py (Totp, TotpLaws) and
--                 infrastructure/security/secrets.py (Cipher)
--   Control       control/session.py (Session: Setup, Issue, Refresh, Authenticate, Revoke);
--                 Control/SessionLaws is about it; control/login.py (Login: Setup, Decision,
--                 Password, Phone); Control/LoginLaws is about it; control/recovery.py (Recovery: Setup,
--                 Account, Admin; RecoveryLaws is about it); control/mfa.py (Mfa: Setup, Complete,
--                 Factors, Challenge, Verify, Enroll, Passkey; MfaLaws is about it)
--   Prelude       shared helpers: Boolean tests, tables as lists of rows, the monad `Action`,
--                 and what its parts keep (Kept)
--   Tests         the results at concrete inputs
--
-- How the code is modelled. A table is a list of rows, and `select`, `update` and `order_by` are
-- functions on it. A method of the repository is one transaction: a function from the tables to its
-- result and the tables that it commits. Transactions run one after the other, as row locks make
-- those that lock the same rows; creations of sessions at the same time are not held apart by them.
-- A `Reach` is any sequence of the transactions that its file names: those of the session
-- repository, those on governed requests, those on contact changes. A method of the control is an
-- `Action`: it changes the `World` (Redis and the tables) and answers, or raises, and what it wrote
-- before it raises stays.
-- UUIDs, hexadecimal digests and keyed hashes are natural numbers; times count microseconds, and a
-- workflow runs at one instant, `now`. What a workflow draws at random is its argument, and where a
-- result needs fresh ids it says so (`IsNew`). Columns with a fixed set of values are enumerations.
-- All recursion is on lists, so no fuel is needed. What raises inside `sessions.begin()` is rolled back
-- (`atomic`). An exception that no code catches is a fault of its own (`uncaught`).
--
-- Parameters are the password hasher, the text methods `strip`, `casefold` and `upper`, which code points
-- are digits or white space (`CharacterClasses`), the count of the breach service, pyotp (`Pyotp`),
-- AES-GCM (`AesGcm`, with its round trip as a law), WebAuthn, the captcha, whether a code could be
-- sent, how PostgreSQL prints the address that a trusted device was seen at (`inet`), and its comparison
-- of texts that ignore case where a login looks an email up (`citext_eq`). The recovery repository
-- compares emails as they are: `normalize_email` folds their case before. The address of a session
-- is kept as the text that was given.
--
-- Not modelled: the end of a login by OIDC; workspaces, registration and privacy; the HTTP boundary and
-- its CSRF check; signatures (PyJWT), HMAC and base64; messages to the user, and what fails when they
-- are sent by the recovery controls; the row-level security context of a transaction; the constraints
-- of the database, but for the unique indexes whose violation a repository catches; the fields that
-- only the database fills; `jwks`.
pub mod Prelude
pub mod Entity
pub mod Redis
pub mod Persistence
pub mod Security
pub mod Tokens
pub mod Control
pub mod Providers
pub mod Tests
