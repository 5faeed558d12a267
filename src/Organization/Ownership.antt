-- ===== src/Organization/Ownership.antt =====
-- Proofs on the owner of an organization: the role of the membership, and the name in the row.
pub mod Writes
pub mod Guards
pub mod Invariant
pub mod Methods
pub mod Limited
pub mod Services
pub mod Invites
pub mod History
