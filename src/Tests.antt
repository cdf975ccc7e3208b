-- ===== src/Tests.antt =====
-- Runs of the models at concrete inputs.
pub mod Bits
pub mod Messages
pub mod Handles
pub mod Frames
pub mod Irqs
pub mod Slots
pub mod WindowRuns
pub mod Syscalls
pub mod ClockRuns
pub mod Untypeds
