-- ===== src/Demo/Reads.antt =====
-- What the demo server answers to reading requests: services/mockRouter.ts.
pub mod Query
pub mod Stats
pub mod Setup
pub mod Lists
pub mod Tests
