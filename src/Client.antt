-- ===== src/Client.antt =====
-- The client: internal/clientstream, and what cmd/wrapping-bot makes of it.
pub mod Session
pub mod Environment
pub mod Start
pub mod EnvFile
pub mod Flags
pub mod Options
pub mod Command
pub mod Run
