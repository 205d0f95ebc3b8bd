-- ===== src/Webhooks.antt =====
-- Webhooks: internal/core/domain/webhook.go, internal/core/usecase/webhook.go, the rows of
-- internal/adapters/outbound/postgres and internal/adapters/outbound/webhooks/dispatcher.go.
pub mod Types
pub mod Rows
pub mod Dispatcher
pub mod Subscriptions
pub mod Attempts
pub mod FanOut
