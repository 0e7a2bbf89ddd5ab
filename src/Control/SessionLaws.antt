-- ===== src/Control/SessionLaws.antt =====
-- What the session workflows guarantee.
pub mod Markers
pub mod Authenticate
pub mod Refused
pub mod ShutOut
pub mod Refresh
