-- ===== src/Bootloader.antt =====
-- The crate `bootloader`: the policy of loading the kernel.
pub mod Acquire
pub mod LoadPlan
pub mod Ownership
pub mod HigherHalfPlan
mod Tests
pub mod Targets
