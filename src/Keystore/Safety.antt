-- ===== src/Keystore/Safety.antt =====
-- Proofs on the rotation of the signing key, api/internal/keystore.
pub mod RoundTrip
pub mod Reads
pub mod Rotation
pub mod Ticks
