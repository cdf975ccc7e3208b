-- ===== src/Server.antt =====
-- crates/smos-server: what every server of the system shares.
pub mod Message
pub mod Errors
pub mod Handles
pub mod Event
pub mod NtfnBuffer
pub mod Reply
