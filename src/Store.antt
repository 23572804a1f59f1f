-- ===== src/Store.antt =====
-- packages/core/src/store: the contract of a job store, and the three stores behind it.
pub mod Table
pub mod Listing
pub mod Contract
pub mod Memory
pub mod Sqlite
pub mod Postgres
