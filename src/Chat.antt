-- ===== src/Chat.antt =====
-- The chat on an analysis: internal/core/usecase/chat.go, chat_scope_policy.go and chat_refusal.go, and the
-- cache and the feedback repository of internal/adapters/outbound/inmemory.
pub mod Types
pub mod Scope
pub mod Refusal
pub mod Memory
pub mod Talk
pub mod Feedback
