-- ===== src/RootServer.antt =====
-- crates/root_server: the root server's own components.
pub mod Kernel
pub mod FrameTable
pub mod Irq
pub mod Windows
pub mod Clock
pub mod Untyped
pub mod Cspace
