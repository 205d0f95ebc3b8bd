-- ===== src/Analyses.antt =====
-- Stored analyses and their chat messages: the list types of internal/core/domain/analysis.go,
-- internal/adapters/outbound/inmemory/analysis_repository.go, and Get, List, Stats and Services of
-- internal/core/usecase/analysis.go.
pub mod Types
pub mod Filter
pub mod Order
pub mod Repository
pub mod Listing
pub mod Stats
pub mod Stored
pub mod Pages
pub mod Walk
