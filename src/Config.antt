-- ===== src/Config.antt =====
-- internal/config: the policy of both services, and its validation. Loading, which reads TOML and
-- the environment, is left out.
pub mod Types
pub mod Validate
pub mod Defaults
pub mod Schedules
pub mod Sections
pub mod Layout
pub mod Policies
