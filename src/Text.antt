-- ===== src/Text.antt =====
-- internal/textutil/text.go: what the daemon does to log text before it is sent.
pub mod Utf8
pub mod Split
pub mod Fence
pub mod Ansi
