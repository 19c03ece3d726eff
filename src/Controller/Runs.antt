-- ===== src/Controller/Runs.antt =====
-- The life of a VirtPlatformConfig.
pub mod Stable
pub mod Monitored
pub mod Preserved
pub mod Agreement
pub mod Life
