-- ===== src/Syscall.antt =====
-- The system calls of crates/smos-common and crates/smos-server: what a client writes into a
-- message and what the server reads from it.
pub mod Text
pub mod Handle
pub mod Invocation
pub mod Request
pub mod Decode
pub mod GetWith
pub mod Client
pub mod Transfer
pub mod Serve
pub mod Call
pub mod RoundTrip
