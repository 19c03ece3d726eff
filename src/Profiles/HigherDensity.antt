-- ===== src/Profiles/HigherDensity.antt =====
-- internal/profiles/higherdensity/profile.go: the profile virt-higher-density.
pub mod Swap
pub mod Hco
pub mod Profile
