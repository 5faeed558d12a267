-- ===== src/Deletion.antt =====
-- api/internal/domain/deletion: the life of a request to delete an account, or to leave one product.
pub mod Model
pub mod Rows
pub mod Env
pub mod Items
pub mod Repository
pub mod Links
pub mod Opening
pub mod Saga
pub mod Worker
pub mod Lifecycle
pub mod Authority
pub mod Acks
pub mod Silent
mod Tests
