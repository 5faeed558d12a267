-- ===== src/Session.antt =====
-- api/internal/domain/session: browser sessions and the refresh tokens of their OAuth clients.
pub mod Model
pub mod Rows
pub mod Env
pub mod Items
pub mod Repository
pub mod Service
pub mod Rotation
mod Tests
