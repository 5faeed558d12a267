-- ===== src/Kyc/Standing.antt =====
-- Proofs on what the table of users says of a person's identity, api/internal/domain/kyc.
pub mod Ladder
pub mod Writes
pub mod Claims
pub mod Updates
pub mod Calls
pub mod Services
pub mod Documents
