-- ===== src/Charts.antt =====
-- The time axis of the charts: components/charts/chartTheme.ts.
pub mod Axis
pub mod Gaps
pub mod Tests
