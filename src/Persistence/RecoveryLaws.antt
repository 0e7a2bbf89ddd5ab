-- ===== src/Persistence/RecoveryLaws.antt =====
-- What the recovery repository guarantees: two people for a governed reset, tokens that work once,
-- and two proofs for a new contact.
pub mod History
pub mod Governed
pub mod Carried
pub mod Reset
pub mod Contact
