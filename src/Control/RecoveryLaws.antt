-- ===== src/Control/RecoveryLaws.antt =====
-- What the recovery controls guarantee across the database and Redis.
pub mod ShutOut
pub mod Staff
