-- ===== src/Profiles/LoadAware.antt =====
-- internal/profiles/loadaware/profile.go: the profile load-aware-rebalancing.
pub mod Selection
pub mod Schema
pub mod Items
pub mod Profile
pub mod Options
pub mod Selected
