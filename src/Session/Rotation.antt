-- ===== src/Session/Rotation.antt =====
-- Proofs on the rotation of refresh tokens, api/internal/domain/session.
pub mod Spent
pub mod Methods
pub mod Services
pub mod Rules
pub mod Grant
pub mod Scopes
pub mod History
pub mod Replay
