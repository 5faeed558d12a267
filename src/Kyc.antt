-- ===== src/Kyc.antt =====
-- api/internal/domain/kyc: the verification of a person's identity.
pub mod Model
pub mod Address
pub mod Rows
pub mod Env
pub mod Items
pub mod Repository
pub mod Service
pub mod Standing
pub mod History
pub mod Locked
mod Tests
