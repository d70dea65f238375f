-- ===== src/Traces.antt =====
-- The panel of a trace: features/traces/components/TracePanel.tsx.
pub mod Spans
pub mod Headers
pub mod Copies
pub mod Tests
