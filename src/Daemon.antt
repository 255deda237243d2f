-- ===== src/Daemon.antt =====
-- internal/daemon: the relay daemon.
pub mod Batcher
pub mod Channel
pub mod Format
pub mod Server
pub mod Config
pub mod Process
