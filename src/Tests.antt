-- ===== src/Tests.antt =====
-- The theorems at concrete inputs.
pub mod Samples
pub mod Machine
pub mod Parts
pub mod Profiles
pub mod Watches
pub mod Runs
