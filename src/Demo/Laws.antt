-- ===== src/Demo/Laws.antt =====
-- What the requests of the demo server keep and guarantee: services/mockRouter.ts.
pub mod Atomic
pub mod Groups
pub mod Identity
pub mod Profiles
pub mod Scenario
