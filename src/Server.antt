-- ===== src/Server.antt =====
-- packages/core/src/server/createServer.ts: the HTTP API over an engine, behind the login.
pub mod Errors
pub mod Routes
pub mod Guard
pub mod Answers
pub mod Network
