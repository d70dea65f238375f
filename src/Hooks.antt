-- ===== src/Hooks.antt =====
-- Effects that load data: the effect of features/traces/components/TracePanel.tsx and the hooks
-- features/api-requests/useApiTargets.ts and hooks/useDataFetch.ts.
pub mod Load
pub mod Current
pub mod Tests
pub mod Targets
pub mod DataFetch
pub mod FetchTests
