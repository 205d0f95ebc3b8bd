-- ===== src/Domain.antt =====
-- internal/core/domain: the types that every layer shares.
pub mod Severity
pub mod Analysis
