-- ===== src/PlanLimit.antt =====
-- api/internal/domain/planlimit: what a plan allows.
pub mod Quotas
pub mod Best
mod Tests
