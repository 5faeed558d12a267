-- ===== src/Dynamo.antt =====
-- The table store that the repositories of api/internal/domain write to: its contract, and a store in
-- memory that meets it.
pub mod Contract
pub mod Memory
pub mod Calls
pub mod Tables
