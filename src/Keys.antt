-- ===== src/Keys.antt =====
-- API keys: internal/core/domain/api_key.go, internal/core/ports/api_key.go and
-- internal/core/usecase/api_key.go.
pub mod Types
pub mod Scopes
pub mod Access
