-- ===== src/Tests.antt =====
-- The properties at concrete inputs: a table with one session, a server in memory, plain tokens.
mod Samples
mod Guards
mod Sessions
mod Control
mod Login
mod Recovery
mod Mfa
