-- ===== src/Jobs.antt =====
-- The asynchronous analysis jobs: internal/core/domain/job.go, the in-memory job repository and the
-- job methods of internal/core/usecase/analysis.go.
pub mod Types
pub mod Repository
pub mod Execute
pub mod Run
pub mod Api
pub mod Race
pub mod Cancel
