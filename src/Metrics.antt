-- ===== src/Metrics.antt =====
-- The series of a metric and their loading: features/metrics/metricSeries.ts and
-- features/metrics/useMetricRead.ts.
pub mod Rates
pub mod Intervals
pub mod Tests
pub mod Read
pub mod Reading
