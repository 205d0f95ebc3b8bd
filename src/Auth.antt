-- ===== src/Auth.antt =====
-- Authentication: internal/core/domain/user.go, internal/core/usecase/auth.go and user.go, and
-- the in-memory repositories of users and refresh tokens.
pub mod Types
pub mod Users
pub mod Accounts
pub mod Admin
pub mod Tokens
pub mod Sessions
pub mod Password
pub mod Profile
