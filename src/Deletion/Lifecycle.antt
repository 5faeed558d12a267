-- ===== src/Deletion/Lifecycle.antt =====
-- Proofs on the life of a request, api/internal/domain/deletion: the states that it passes through and
-- the marker of the user's open request.
pub mod Diagram
pub mod Writes
pub mod Methods
pub mod Links
pub mod Waiting
pub mod Purging
pub mod Opening
pub mod Saga
pub mod Worker
pub mod History
