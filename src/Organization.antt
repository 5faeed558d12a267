-- ===== src/Organization.antt =====
-- Workspaces, their members and their invitations (api/internal/domain/organization).
pub mod Model
pub mod Ladder
pub mod Rows
pub mod Env
pub mod Repository
pub mod Counters
pub mod Access
pub mod Limits
pub mod Service
pub mod Invitations
pub mod Ownership
pub mod Authority
mod Tests
