-- ===== src/Tests.antt =====
-- Concrete runs of the theorems.
pub mod Samples
pub mod Policy
pub mod Retry
pub mod Trace
pub mod Jobs
pub mod Auth
pub mod Keys
pub mod Analyses
pub mod Chat
pub mod Queue
pub mod Webhooks
