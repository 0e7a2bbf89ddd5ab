-- ===== src/Persistence/SessionLaws.antt =====
-- What the session repository guarantees, over any run of its methods.
pub mod Run
pub mod Families
pub mod TokenRow
pub mod Refusals
pub mod SingleUse
pub mod Spared
pub mod Ended
pub mod RevokeAll
pub mod OneToken
pub mod Cap
