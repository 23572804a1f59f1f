-- ===== src/Cli.antt =====
-- packages/core/src/cli: the command line, with the files and the machine that it works on.
pub mod EnvFile
pub mod Machine
pub mod Detect
pub mod Docker
pub mod ServiceBlock
pub mod Compose
pub mod SetupPostgres
pub mod SetupBroker
pub mod Init
pub mod Waiting
pub mod Quoting
pub mod Daemon
pub mod Launch
pub mod Serving
