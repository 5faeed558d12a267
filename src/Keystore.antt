-- ===== src/Keystore.antt =====
-- api/internal/keystore: the signing keys, their storage and their rotation.
pub mod Key
pub mod Env
pub mod Store
pub mod Rotator
pub mod Safety
mod Tests
