-- ===== src/Policy.antt =====
-- internal/core/policy: the deterministic rules over collected evidence.
pub mod Text
pub mod Severity
pub mod EvidenceSeverity
pub mod Evidence
pub mod Recommendation
