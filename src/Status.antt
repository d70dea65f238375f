-- ===== src/Status.antt =====
-- How a row's state is judged for the whole client: utils/operationalStatus.ts,
-- features/uptime/uptimeState.ts and features/metrics/metricPresentation.ts.
pub mod Operational
pub mod Metrics
pub mod Titles
pub mod Tests
