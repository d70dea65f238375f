-- ===== src/Demo.antt =====
-- The demo server that answers the client without a backend: services/mockRouter.ts.
pub mod Handlers
pub mod Laws
pub mod Profiles
pub mod Reads
pub mod Route
pub mod Scenario
pub mod Server
pub mod State
pub mod Samples
pub mod Tests
