-- ===== src/MemoryLayout.antt =====
-- The crate `memory-layout`: the acceptance contract of the first owned x86-64 address space.
pub mod Address
pub mod Range
pub mod Align
pub mod Permissions
pub mod Region
pub mod Policy
pub mod Plan
pub mod PageTable
pub mod FrameOwner
pub mod Cpu
mod Tests
