-- ===== src/Common.antt =====
-- crates/smos-common: what clients and servers share.
pub mod Enum
pub mod Invocations
pub mod Errors
