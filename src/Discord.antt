-- ===== src/Discord.antt =====
-- internal/discord: the client of Discord's HTTP interface and of its gateway.
pub mod Presence
pub mod Sender
pub mod Gateway
