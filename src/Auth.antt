-- ===== src/Auth.antt =====
-- packages/core/src/auth: the login that protects the dashboard and its API.
pub mod Credentials
pub mod Accounts
pub mod Routes
pub mod Keeps
pub mod Invariant
pub mod Signup
pub mod Sessions
pub mod Resets
pub mod Mailer
