-- ===== src/Tests.antt =====
-- Concrete runs: the theorems at inputs that meet their hypotheses, and tests of the definitions.
mod Stores
mod Workers
mod Deliveries
mod Operations
mod Logins
mod Servers
mod Commands
mod Pages
