-- ===== src/AdminUi.antt =====
-- The administrators' web interface: its sign-in throttle.
pub mod LoginThrottle
