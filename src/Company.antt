-- ===== src/Company.antt =====
-- api/internal/domain/company: the tax id of who an organization issues documents for.
pub mod TaxId
mod Tests
