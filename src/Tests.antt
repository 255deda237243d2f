-- ===== src/Tests.antt =====
-- Concrete inputs of each part of the program, and each property at one of them.
mod Texts
mod Logs
mod Streams
mod Frames
mod Sending
mod Clients
mod Configs
mod Gateways
mod Runs
mod Relays
