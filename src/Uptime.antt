-- ===== src/Uptime.antt =====
-- The page of one uptime monitor.
pub mod Detail
pub mod Tests
